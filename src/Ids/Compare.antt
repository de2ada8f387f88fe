-- ===== src/Ids/Compare.antt =====
-- The comparisons of bytes and of types under the orders of `ID` and `Key` (src/util.cpp).
use libelliptics_proxy.Base.{
  ℕ, zero, suc, ◌<◌, ◌^◌, ◌≡◌, refl, ◌⊎◌, inl, ℤ, pos, negsuc, true, false, arith, ltb_ℤ, sub_int,
  Bytes, [], ◌∷◌, length, eqb_bytes,
}
use libelliptics_proxy.Ids.{memcmp, bytes_less}

-- The sign of a comparison read from the other side.
abbrev pub flip_sign : ℤ → ℤ
flip_sign (pos zero) = pos 0
flip_sign (pos (suc n)) = negsuc 0
flip_sign (negsuc n) = pos 1

pub memcmp_flip : (n : ℕ) (xs ys : Bytes) → memcmp n ys xs ≡ flip_sign (memcmp n xs ys)
unfolding memcmp
memcmp_flip zero xs ys = refl
memcmp_flip (suc n) [] [] = refl
memcmp_flip (suc n) [] (y ∷ ys) = refl
memcmp_flip (suc n) (x ∷ xs) [] = refl
memcmp_flip (suc n) (x ∷ xs) (y ∷ ys) = ground (arith, memcmp_flip n xs ys)

pub memcmp_sign :
    (n : ℕ) (xs ys : Bytes)
    → (memcmp n xs ys ≡ pos 0) ⊎ (memcmp n xs ys ≡ pos 1) ⊎ (memcmp n xs ys ≡ negsuc 0)
unfolding memcmp
memcmp_sign zero xs ys = inl refl
memcmp_sign (suc n) [] ys = inl refl
memcmp_sign (suc n) (x ∷ xs) [] = inl refl
memcmp_sign (suc n) (x ∷ xs) (y ∷ ys) = ground (arith, memcmp_sign n xs ys)

pub memcmp_self : (n : ℕ) (xs : Bytes) → memcmp n xs xs ≡ pos 0
unfolding memcmp
memcmp_self zero xs = refl
memcmp_self (suc n) [] = refl
memcmp_self (suc n) (x ∷ xs) = ground (arith, memcmp_self n xs)

-- Over `n` bytes on each side, no difference means the same bytes.
pub memcmp_zero :
    (n : ℕ) (xs ys : Bytes) → length xs ≡ n → length ys ≡ n → memcmp n xs ys ≡ pos 0 → xs ≡ ys
unfolding memcmp
memcmp_zero zero [] [] p q h = refl
memcmp_zero zero [] (y ∷ ys) p q h = absurd (omega arith)
memcmp_zero zero (x ∷ xs) ys p q h = absurd (omega arith)
memcmp_zero (suc n) [] ys p q h = absurd (omega arith)
memcmp_zero (suc n) (x ∷ xs) [] p q h = absurd (omega arith)
memcmp_zero (suc n) (x ∷ xs) (y ∷ ys) p q h = ground (arith, memcmp_zero n xs ys)

pub memcmp_trans :
    (n : ℕ) (xs ys zs : Bytes)
    → length xs ≡ n
    → length ys ≡ n
    → length zs ≡ n
    → memcmp n xs ys ≡ negsuc 0
    → memcmp n ys zs ≡ negsuc 0
    → memcmp n xs zs ≡ negsuc 0
unfolding memcmp
memcmp_trans zero xs ys zs p q r h k = ground arith
memcmp_trans (suc n) [] ys zs p q r h k = absurd (omega arith)
memcmp_trans (suc n) (x ∷ xs) [] zs p q r h k = absurd (omega arith)
memcmp_trans (suc n) (x ∷ xs) (y ∷ ys) [] p q r h k = absurd (omega arith)
memcmp_trans (suc n) (x ∷ xs) (y ∷ ys) (z ∷ zs) p q r h k = ground (arith, memcmp_trans n xs ys zs)

-- Types that are not negative are compared rightly by the sign of their difference.
pub sub_int_sign :
    (a b : ℕ)
    → a < 2 ^ 31
    → b < 2 ^ 31
    → ltb_ℤ (sub_int (pos a) (pos b)) (pos 0) ≡ ltb_ℤ (pos a) (pos b)
unfolding sub_int
sub_int_sign a b p q = ground arith

pub bytes_less_self : (xs : Bytes) → bytes_less xs xs ≡ false
unfolding bytes_less
bytes_less_self [] = refl
bytes_less_self (x ∷ xs) = ground (arith, bytes_less_self xs)

pub bytes_less_trans :
    (xs ys zs : Bytes) → bytes_less xs ys ≡ true → bytes_less ys zs ≡ true → bytes_less xs zs ≡ true
unfolding bytes_less
bytes_less_trans xs [] zs h k = ground arith
bytes_less_trans xs (y ∷ ys) [] h k = ground arith
bytes_less_trans [] (y ∷ ys) (z ∷ zs) h k = refl
bytes_less_trans (x ∷ xs) (y ∷ ys) (z ∷ zs) h k = ground (arith, bytes_less_trans xs ys zs)

pub bytes_less_total :
    (xs ys : Bytes) → bytes_less xs ys ≡ false → bytes_less ys xs ≡ false → eqb_bytes xs ys ≡ true
unfolding bytes_less
bytes_less_total [] [] h k = refl
bytes_less_total [] (y ∷ ys) h k = ground arith
bytes_less_total (x ∷ xs) [] h k = ground arith
bytes_less_total (x ∷ xs) (y ∷ ys) h k = ground (arith, bytes_less_total xs ys)
