-- ===== src/Sorting/Counting.antt =====
-- The algorithms on vectors of `int` by how often they keep each integer.
use libelliptics_proxy.Base.{
  ◌-◌, min, ◌≡◌, refl, ℤ, true, List, [], ◌∷◌, arith, ltb_ℤ, eqb_ℤ, ◌≤ℤ◌, All, Bool-cases, inl, inr,
}
use libelliptics_proxy.Sorting.{insert_sorted, sort, set_difference, unique, Sorted, count}

count-insert_sorted : (g x : ℤ) (xs : List ℤ) → count g (insert_sorted x xs) ≡ count g (x ∷ xs)
unfolding insert_sorted
count-insert_sorted g x [] = refl
count-insert_sorted g x (y ∷ ys) = ground (arith, count-insert_sorted g x ys)

pub count-sort : (g : ℤ) (xs : List ℤ) → count g (sort xs) ≡ count g xs
unfolding sort
count-sort g [] = refl
count-sort g (x ∷ xs) = ground (arith, count-insert_sorted g x (sort xs), count-sort g xs)

All-insert_sorted :
    (a x : ℤ) (xs : List ℤ) → a ≤ℤ x → All (λ y. a ≤ℤ y) xs → All (λ y. a ≤ℤ y) (insert_sorted x xs)
unfolding insert_sorted
All-insert_sorted a x [] h k = (h, tt)
All-insert_sorted a x (y ∷ ys) h k = elim (Bool-cases (ltb_ℤ y x)) [
  | inl e ↦ rw e (k.0, All-insert_sorted a x ys h k.1)
  | inr e ↦ rw e (h, k)
]

pub All-le_trans : (a b : ℤ) (xs : List ℤ) → a ≤ℤ b → All (λ y. b ≤ℤ y) xs → All (λ y. a ≤ℤ y) xs
All-le_trans a b [] h k = tt
All-le_trans a b (x ∷ xs) h k = (omega arith, All-le_trans a b xs h k.1)

insert_sorted-Sorted : (x : ℤ) (xs : List ℤ) → Sorted xs → Sorted (insert_sorted x xs)
unfolding insert_sorted
insert_sorted-Sorted x [] h = (tt, tt)
insert_sorted-Sorted x (y ∷ ys) h = elim (Bool-cases (ltb_ℤ y x)) [
  | inl e ↦ rw e (All-insert_sorted y x ys (ground arith) h.0, insert_sorted-Sorted x ys h.1)
  | inr e ↦ let le : x ≤ℤ y = ground arith in rw e ((le, All-le_trans x y ys le h.0), h)
]

pub sort-Sorted : (xs : List ℤ) → Sorted (sort xs)
unfolding sort
sort-Sorted [] = tt
sort-Sorted (x ∷ xs) = insert_sorted-Sorted x (sort xs) (sort-Sorted xs)

-- What lies below a sorted vector does not stand in it.
count_below :
    (g y : ℤ) (ys : List ℤ) → ltb_ℤ g y ≡ true → All (λ z. y ≤ℤ z) ys → count g (y ∷ ys) ≡ 0
count_below g y [] h k = ground arith
count_below g y (z ∷ zs) h k = ground (arith, count_below g z zs, count_below g y zs h k.1)

pub count-set_difference :
    (g : ℤ) (xs ys : List ℤ)
    → Sorted xs
    → Sorted ys
    → count g (set_difference xs ys) ≡ count g xs - count g ys
unfolding set_difference
count-set_difference g [] ys h k = omega arith
count-set_difference g (x ∷ xs) [] h k = omega arith
count-set_difference g (x ∷ xs) (y ∷ ys) h k = ground (
  arith,
  count_below x y ys,
  count_below y x xs,
  count-set_difference g xs (y ∷ ys) h.1 k,
  count-set_difference g (x ∷ xs) ys h k.1,
  count-set_difference g xs ys h.1 k.1,
)

All-unique : (a : ℤ) (xs : List ℤ) → All (λ y. a ≤ℤ y) xs → All (λ y. a ≤ℤ y) (unique xs)
unfolding unique
All-unique a [] h = tt
All-unique a (x ∷ []) h = h
All-unique a (x ∷ y ∷ r) h = elim (Bool-cases (eqb_ℤ x y)) [
  | inl e ↦ rw e (All-unique a (y ∷ r) h.1)
  | inr e ↦ rw e (h.0, All-unique a (y ∷ r) h.1)
]

pub unique-Sorted : (xs : List ℤ) → Sorted xs → Sorted (unique xs)
unfolding unique
unique-Sorted [] h = tt
unique-Sorted (x ∷ []) h = h
unique-Sorted (x ∷ y ∷ r) h = elim (Bool-cases (eqb_ℤ x y)) [
  | inl e ↦ rw e (unique-Sorted (y ∷ r) h.1)
  | inr e ↦ rw e (All-unique x (y ∷ r) h.0, unique-Sorted (y ∷ r) h.1)
]

-- Of a sorted vector each integer is kept exactly once.
pub count-unique : (g : ℤ) (xs : List ℤ) → Sorted xs → count g (unique xs) ≡ min 1 (count g xs)
unfolding unique
count-unique g [] h = omega arith
count-unique g (x ∷ []) h = ground arith
count-unique g (x ∷ y ∷ r) h = ground (arith, count-unique g (y ∷ r) h.1, count_below x y r)
