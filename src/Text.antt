-- ===== src/Text.antt =====
-- The operations of `std::string` that the proxy uses on paths and addresses, over bytes.
use libelliptics_proxy.Base.{
  ℕ, zero, suc, ◌+◌, ◌≡◌, refl, Bool, false, ◌==◌, [], ◌∷◌, ◌++◌, Option, none, some, arith, ltb,
  Bytes, length, take, drop, All, if◌then◌else◌,
}
use libelliptics_proxy.Result.{Result, ok, throw, out_of_range}

-- `rfind` of one character, and `find_last_of` of several: the last position that passes the test.
unfoldable pub find_last : (ℕ → Bool) → Bytes → Option ℕ
find_last p [] = none
find_last p (x ∷ xs) = elim (find_last p xs) [
  | some i ↦ some (suc i)
  | none ↦ if p x then some 0 else none
]

-- A position plus 1, which is 0 for `npos`.
abbrev pub past : Option ℕ → ℕ
past none = 0
past (some i) = i + 1

-- `find` of one character.
unfoldable pub find_first : ℕ → Bytes → Option ℕ
find_first c [] = none
find_first c (x ∷ xs) =
    if x == c then some 0 else elim (find_first c xs) [ some i ↦ some (suc i) | none ↦ none ]

-- The bytes up to the first NUL.
unfoldable pub c_string : Bytes → Bytes
c_string [] = []
c_string (x ∷ xs) = elim x [ zero ↦ [] | other ↦ other ∷ c_string xs ]

-- `s.substr(offset, count)`.
unfoldable pub substr : Bytes → ℕ → ℕ → Result Bytes
substr s offset count =
    if ltb (length s) offset then throw out_of_range else ok (take count (drop offset s))

abbrev pub Lacks : ℕ → Bytes → Type 0
Lacks c = All (λ x. (x == c) ≡ false)

pub find_last-none : (c : ℕ) (xs : Bytes) → Lacks c xs → find_last (λ x. x == c) xs ≡ none
unfolding find_last
find_last-none c [] h = refl
find_last-none c (x ∷ xs) h = rw (find_last-none c xs h.1, h.0)

-- The last of a character that does not stand behind it.
pub find_last-append :
    (c : ℕ) (xs ys : Bytes) → Lacks c ys → find_last (λ x. x == c) (xs ++ c ∷ ys) ≡ some (length xs)
unfolding find_last
find_last-append c [] ys h = rw (find_last-none c ys h) (ground arith)
find_last-append c (x ∷ xs) ys h = rw (find_last-append c xs ys h)
