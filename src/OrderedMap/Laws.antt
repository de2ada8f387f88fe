-- ===== src/OrderedMap/Laws.antt =====
-- Laws of `std::map`, for an order that is irreflexive.
use libelliptics_proxy.Base.{
  ℕ, ◌<◌, ◌≡◌, refl, Bool, Bool-cases, inl, inr, false, [], ◌∷◌, ◌++◌, Option, none, some, arith,
  ltb, ◌==◌, is_empty, All, if◌then◌else◌,
}
use libelliptics_proxy.OrderedMap.{Map, find, assign, insert, lower_bound, at_or}

module _ {ℓ} {K : Type 0} {V : Type ℓ} (less : K → K → Bool) where
  pub find-assign_self :
      (k : K) (v : V) (m : Map K V) → less k k ≡ false → find less k (assign less k v m) ≡ some v
  unfolding find assign
  find-assign_self k v [] h = ground arith
  find-assign_self k v ((j, w) ∷ m) h = ground (arith, find-assign_self k v m h)

  pub find-insert_new :
      (k : K) (v : V) (m : Map K V)
      → less k k ≡ false
      → find less k m ≡ none
      → find less k (insert less k v m) ≡ some v
  unfolding find insert
  find-insert_new k v [] h e = ground arith
  find-insert_new k v ((j, w) ∷ m) h e = ground (arith, find-insert_new k v m h)

  -- The second of two writes at one key is the one that stays.
  pub assign-assign_self :
      (k : K) (v w : V) (m : Map K V)
      → less k k ≡ false
      → assign less k w (assign less k v m) ≡ assign less k w m
  unfolding assign
  assign-assign_self k v w [] h = ground arith
  assign-assign_self k v w ((j, u) ∷ m) h = ground (arith, assign-assign_self k v w m h)

  -- The first result, or else the second.
  abbrev pub or_else : Option (K × V) → Option (K × V) → Option (K × V)
  or_else (some e) r = some e
  or_else none r = r

  pub lower_bound-append :
      (k : K) (m n : Map K V)
      → lower_bound less k (m ++ n) ≡ or_else (lower_bound less k m) (lower_bound less k n)
  unfolding lower_bound
  lower_bound-append k [] n = refl
  lower_bound-append k ((j, v) ∷ m) n = ground (arith, lower_bound-append k m n)

-- What holds of the entries and of the new one holds of all entries.
module _ {ℓ} {K : Type 0} {V : Type ℓ} (P : K × V → Type 0) (less : K → K → Bool) where
  pub assign-All : (k : K) (v : V) (m : Map K V) → P (k, v) → All P m → All P (assign less k v m)
  unfolding assign
  assign-All k v [] h hm = (h, tt)
  assign-All k v ((j, u) ∷ m) h hm = elim (Bool-cases (less j k)) [
    | inl e ↦ rw e (hm.0, assign-All k v m h hm.1)
    | inr e ↦ elim (Bool-cases (less k j)) [
      | inl d ↦ rw (e, d) (h, hm)
      | inr d ↦ rw (e, d) (h, hm.1)
    ]
  ]

  pub insert-All : (k : K) (v : V) (m : Map K V) → P (k, v) → All P m → All P (insert less k v m)
  unfolding insert
  insert-All k v [] h hm = (h, tt)
  insert-All k v ((j, u) ∷ m) h hm = elim (Bool-cases (less j k)) [
    | inl e ↦ rw e (hm.0, insert-All k v m h hm.1)
    | inr e ↦ elim (Bool-cases (less k j)) [ inl d ↦ rw (e, d) (h, hm) | inr d ↦ rw (e, d) hm ]
  ]

-- A key above all others is written at the end.
pub assign_last {ℓ} :
    {V : Type ℓ} (k : ℕ) (v : V) (m : Map ℕ V)
    → All (λ e. e.0 < k) m
    → assign ltb k v m ≡ m ++ (k, v) ∷ []
unfolding assign
assign_last k v [] h = refl
assign_last k v ((j, w) ∷ m) h = ground (arith, assign_last k v m h.1)

pub find-assign {ℓ} :
    {V : Type ℓ} (j k : ℕ) (v : V) (m : Map ℕ V)
    → find ltb j (assign ltb k v m) ≡ (if k == j then some v else find ltb j m)
unfolding find assign
find-assign j k v [] = ground arith
find-assign j k v ((i, w) ∷ m) = ground (arith, find-assign j k v m)

pub is_empty-assign {ℓ} :
    {V : Type ℓ} (k : ℕ) (v : V) (m : Map ℕ V) → is_empty (assign ltb k v m) ≡ false
unfolding assign
is_empty-assign k v [] = refl
is_empty-assign k v ((i, w) ∷ m) = ground arith

pub is_empty-insert {ℓ} :
    {V : Type ℓ} (k : ℕ) (v : V) (m : Map ℕ V) → is_empty (insert ltb k v m) ≡ false
unfolding insert
is_empty-insert k v [] = refl
is_empty-insert k v ((i, w) ∷ m) = ground arith

-- An entry with the default value changes no value.
pub at_or-insert {ℓ} :
    {V : Type ℓ} (j k : ℕ) (d : V) (m : Map ℕ V)
    → at_or ltb d j (insert ltb k d m) ≡ at_or ltb d j m
unfolding find insert
at_or-insert j k d [] = ground arith
at_or-insert j k d ((i, w) ∷ m) = ground (arith, at_or-insert j k d m)
