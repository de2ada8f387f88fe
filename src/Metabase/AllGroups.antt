-- ===== src/Metabase/AllGroups.antt =====
-- `get_all_groups` (src/proxy.cpp): the groups of both lists of the metabase.
use libelliptics_proxy.Base.{
  ◌+◌, ◌≡◌, refl, ◌∙◌, ap, ℤ, true, false, List, [], ◌∷◌, ◌++◌, min, arith,
}
use libelliptics_proxy.Result.{ok, throw, undefined, runtime_error, no_dealer}
use libelliptics_proxy.Sorting.{sort, unique, Sorted, count}
use libelliptics_proxy.Sorting.Counting.{count-sort, sort-Sorted, unique-Sorted, count-unique}
use libelliptics_proxy.Metabase.{concat, values, get_all_groups, collect_group_weights}
use libelliptics_proxy.Proxy.{External, Settings, World, Event, note}

count-append : (g : ℤ) (xs ys : List ℤ) → count g (xs ++ ys) ≡ count g xs + count g ys
count-append g [] ys = omega arith
count-append g (x ∷ xs) ys = ground (arith, count-append g xs ys)

-- Where the metabase answers both questions, the result is in rising order and holds each group of
-- the two answers exactly once, and no other.
pub get_all_groups_lem :
    (x : External) (c : Settings) (w : World) (r1 : List (List ℤ)) (r2 : List (ℤ × List ℤ))
    → c.has_dealer ≡ true
    → x.symmetric (Event.get_symmetric_groups ∷ w.trace) ≡ ok r1
    → x.bad (Event.get_bad_groups ∷ Event.get_symmetric_groups ∷ w.trace) ≡ ok r2
    → (gs : List ℤ) × (get_all_groups x c w
        ≡ (ok gs, note (note w Event.get_symmetric_groups) Event.get_bad_groups))
      × Sorted gs
      × ((g : ℤ) → count g gs ≡ min 1 (count g (concat r1) + count g (concat (values r2))))
unfolding get_all_groups
get_all_groups_lem x c w r1 r2 dealer e1 e2 =
    let all = concat r1 ++ concat (values r2) in
    (
      unique (sort all),
      rw (dealer, e1, e2) refl,
      unique-Sorted (sort all) (sort-Sorted all),
      λ g.
          count-unique g (sort all) (sort-Sorted all)
          ∙ ap (min 1) (count-sort g all ∙ count-append g (concat r1) (concat (values r2))),
    )

-- Without a dealer `get_all_groups` follows a null pointer, where `collectGroupWeights` throws.
pub get_all_groups_no_dealer :
    (x : External) (c : Settings) (w : World)
    → c.has_dealer ≡ false
    → (get_all_groups x c w ≡ (undefined, w))
      × (collect_group_weights x c w ≡ (throw (runtime_error no_dealer), w))
unfolding get_all_groups collect_group_weights
get_all_groups_no_dealer x c w h = (rw h refl, rw h refl)
