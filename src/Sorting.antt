-- ===== src/Sorting.antt =====
-- `std::sort`, `std::set_difference` and `std::unique` on vectors of `int`, as src/proxy.cpp calls
-- them. Equal integers cannot be told apart, so the sorted vector is determined.
pub mod Counting
use libelliptics_proxy.Base.{ℕ, suc, ℤ, Bool, List, [], ◌∷◌, ltb_ℤ, eqb_ℤ, ◌≤ℤ◌, All, if◌then◌else◌}

unfoldable pub insert_sorted : ℤ → List ℤ → List ℤ
insert_sorted x [] = x ∷ []
insert_sorted x (y ∷ ys) = if ltb_ℤ y x then y ∷ insert_sorted x ys else x ∷ y ∷ ys

unfoldable pub sort : List ℤ → List ℤ
unfolding insert_sorted
sort [] = []
sort (x ∷ xs) = insert_sorted x (sort xs)

-- The merge of two sorted ranges that keeps what the second lacks.
unfoldable pub set_difference : List ℤ → List ℤ → List ℤ
set_difference [] ys = []
set_difference (x ∷ xs) [] = x ∷ xs
set_difference (x ∷ xs) (y ∷ ys) =
    let keep = x ∷ set_difference xs (y ∷ ys) in
    let skip = set_difference (x ∷ xs) ys in
    let both = set_difference xs ys in if ltb_ℤ x y then keep else if ltb_ℤ y x then skip else both

-- `v.erase(std::unique(v.begin(), v.end()), v.end())`.
unfoldable pub unique : List ℤ → List ℤ
unique [] = []
unique (x ∷ []) = x ∷ []
unique (x ∷ y ∷ r) = let rest = unique (y ∷ r) in if eqb_ℤ x y then rest else x ∷ rest

abbrev pub Sorted : List ℤ → Type 0
Sorted [] = Unit
Sorted (x ∷ xs) = All (λ y. x ≤ℤ y) xs × Sorted xs

-- How often an integer stands in a vector.
abbrev pub count : ℤ → List ℤ → ℕ
count g [] = 0
count g (x ∷ xs) = if eqb_ℤ x g then suc (count g xs) else count g xs
