-- ===== src/Weights/Choice.antt =====
-- The choice of `weighted_groups::get` (src/group_weights_cache.cpp) against a walk along the list.
use libelliptics_proxy.Base.{
  ℕ, ◌+◌, ◌-◌, ◌%◌, ◌≤◌, ◌<◌, ◌≡◌, ◌≢◌, refl, ◌∙◌, ℤ, List, [], ◌∷◌, ◌++◌, Option, none, some,
  arith, ltb, leb, word, All, Bool-cases, inl, inr, if◌then◌else◌,
}
use libelliptics_proxy.OrderedMap.{Map, lower_bound}
use libelliptics_proxy.OrderedMap.Laws.{assign_last, assign-assign_self}
use libelliptics_proxy.Result.{Result, ok, throw, runtime_error, nothing_found}
use libelliptics_proxy.Weights.{GroupWithWeight, WeightedGroups, no_groups, add, get, add_all}

-- The sum of the weights.
abbrev pub weight_sum : List GroupWithWeight → ℕ
weight_sum [] = 0
weight_sum (g ∷ gs) = g.weight + weight_sum gs

-- The reference: walk along the groups, and give each the points up to its weight.
abbrev pub pick : ℕ → List GroupWithWeight → Result (List ℤ)
pick point [] = throw (runtime_error nothing_found)
pick point (g ∷ gs) = if leb point g.weight then ok g.group_ids else pick (point - g.weight) gs

abbrev pub IsPositive : GroupWithWeight → Type 0
IsPositive g = 0 < g.weight

-- The group of an entry, or the walk where there is none.
abbrev found_or : Option (ℕ × List ℤ) → Result (List ℤ) → Result (List ℤ)
found_or none r = r
found_or (some (_, group)) r = ok group

-- The keys do not exceed the running total.
abbrev Bounded : WeightedGroups → Type 0
Bounded w = All (λ e. e.0 ≤ w.total_weight) w.map

All-mono : (m n : ℕ) (l : Map ℕ (List ℤ)) → m ≤ n → All (λ e. e.0 ≤ m) l → All (λ e. e.0 ≤ n) l
All-mono m n [] h a = tt
All-mono m n (e ∷ l) h a = (omega arith, All-mono m n l h a.1)

All-append :
    (n : ℕ) (l : Map ℕ (List ℤ)) (e : ℕ × List ℤ)
    → All (λ e. e.0 ≤ n) l
    → e.0 ≤ n
    → All (λ e. e.0 ≤ n) (l ++ e ∷ [])
All-append n [] e a h = (h, tt)
All-append n (x ∷ l) e a h = (a.0, All-append n l e a.1 h)

-- What one `add` does while the total does not wrap: an entry at the end.
add_lem :
    (w : WeightedGroups) (group : List ℤ) (weight : ℕ)
    → Bounded w
    → 0 < weight
    → w.total_weight + weight < word
    → add w group weight ≡ record {
      total_weight = w.total_weight + weight;
      map = w.map ++ (w.total_weight + weight, group) ∷ [];
    }
unfolding add
add_lem w group weight b p small =
    rw (no_wrap, assign_last (w.total_weight + weight) group w.map (below w.map b)) refl
  where
    no_wrap : (w.total_weight + weight) % word ≡ w.total_weight + weight
    no_wrap = omega arith

    below :
        (l : Map ℕ (List ℤ))
        → All (λ e. e.0 ≤ w.total_weight) l
        → All (λ e. e.0 < w.total_weight + weight) l
    below [] a = tt
    below (e ∷ l) a = (omega arith, below l a.1)

-- One more entry at the end is one more step of the walk.
found_last :
    (m : Map ℕ (List ℤ)) (total weight point : ℕ) (group : List ℤ) (rest : Result (List ℤ))
    → found_or (lower_bound ltb point (m ++ (total + weight, group) ∷ [])) rest
      ≡ found_or (lower_bound ltb point m) (if leb (point - total) weight then ok group else rest)
unfolding lower_bound
found_last [] total weight point group rest = ground arith
found_last ((j, v) ∷ m) total weight point group rest =
    ground (arith, found_last m total weight point group rest)

-- The state of the loop with the total and the entry of one more group.
abbrev extended : WeightedGroups → GroupWithWeight → WeightedGroups
extended w g = record {
  total_weight = w.total_weight + g.weight;
  map = w.map ++ (w.total_weight + g.weight, g.group_ids) ∷ [];
}

extended-Bounded : (w : WeightedGroups) (g : GroupWithWeight) → Bounded w → Bounded (extended w g)
extended-Bounded w g b = All-append _ w.map _ (All-mono _ _ w.map (omega arith) b) (omega arith)

found_add_all :
    (gs : List GroupWithWeight) (w : WeightedGroups) (point : ℕ)
    → Bounded w
    → All IsPositive gs
    → w.total_weight + weight_sum gs < word
    → ((add_all w gs).total_weight ≡ w.total_weight + weight_sum gs)
      × (found_or (lower_bound ltb point (add_all w gs).map) (throw (runtime_error nothing_found))
          ≡ found_or (lower_bound ltb point w.map) (pick (point - w.total_weight) gs))
unfolding add_all
found_add_all [] w point b ps small = (omega arith, refl)
found_add_all (g ∷ gs) w point b ps small =
    let minus : point - (w.total_weight + g.weight) ≡ point - w.total_weight - g.weight =
      omega arith in
    let (total, found) =
      found_add_all gs (extended w g) point (extended-Bounded w g b) ps.1 (omega arith) in
    rw (add_all, add_lem w g.group_ids g.weight b ps.0 (omega arith))
      (
        omega (arith, total),
        found ∙ found_last w.map w.total_weight g.weight point g.group_ids _ ∙ rw minus refl,
      )

-- Where the weights are positive and their sum fits 64 bits, the group that `get` takes at a point
-- is the one in whose share of the sum the point lies, in the order of the list.
pub get-add_all :
    (draw : ℕ → ℕ) (gs : List GroupWithWeight)
    → All IsPositive gs
    → weight_sum gs < word
    → get draw (add_all no_groups gs) ≡ pick (draw (weight_sum gs)) gs
unfolding get lower_bound
get-add_all draw gs ps small =
    let point = draw (weight_sum gs) in
    let (total, found) = found_add_all gs no_groups point tt ps (omega arith) in
    let sum : (add_all no_groups gs).total_weight ≡ weight_sum gs = omega (arith, total) in
    let start : point - 0 ≡ point = omega arith in rw sum (as_found _ ∙ found ∙ rw start refl)
  where
    as_found :
        (o : Option (ℕ × List ℤ))
        → elim o [ none ↦ throw (runtime_error nothing_found) | some (_, group) ↦ ok group ]
          ≡ found_or o (throw (runtime_error nothing_found))
    as_found none = refl
    as_found (some (_, group)) = refl

-- A point within the sum of the weights always falls to some group.
pick_total :
    (gs : List GroupWithWeight) (point : ℕ)
    → gs ≢ []
    → point ≤ weight_sum gs
    → (group : List ℤ) × (pick point gs ≡ ok group)
pick_total [] point h k = absurd (h refl)
pick_total (g ∷ []) point h k = (g.group_ids, ground arith)
pick_total (g ∷ g' ∷ gs) point h k = elim (Bool-cases (leb point g.weight)) [
  | inl e ↦ (g.group_ids, rw e)
  | inr e ↦ rw e (pick_total (g' ∷ gs) (point - g.weight) (λ q. cc) (ground arith))
]

-- With positive weights whose sum fits 64 bits, and at least one group, `get` finds a group
-- wherever the point lies within the sum.
pub get-add_all_total :
    (draw : ℕ → ℕ) (gs : List GroupWithWeight)
    → All IsPositive gs
    → weight_sum gs < word
    → gs ≢ []
    → draw (weight_sum gs) ≤ weight_sum gs
    → (group : List ℤ) × (get draw (add_all no_groups gs) ≡ ok group)
get-add_all_total draw gs ps small any inside =
    let (group, e) = pick_total gs (draw (weight_sum gs)) any inside in
    (group, get-add_all draw gs ps small ∙ e)

-- A group of weight 0 takes the place of the one that was added before it, which is then lost.
pub add_zero_weight :
    (w : WeightedGroups) (before group : List ℤ) (weight : ℕ)
    → add (add w before weight) group 0 ≡ add w group weight
unfolding add
add_zero_weight w before group weight =
    let same : ((w.total_weight + weight) % word + 0) % word ≡ (w.total_weight + weight) % word =
      omega arith in
    rw same (
      rw (
        assign-assign_self ltb ((w.total_weight + weight) % word) before group w.map
          (ground arith)))
