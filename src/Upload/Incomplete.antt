-- ===== src/Upload/Incomplete.antt =====
-- `write_helper_t::get_incomplete_groups` (src/proxy.cpp): the groups that a chunked write did not
-- reach, from which the partial object is removed.
use libelliptics_proxy.Base.{
  ◌+◌, ◌-◌, ◌%◌, ◌≤◌, ◌<◌, ◌≡◌, refl, ◌∙◌, ℤ, word, List, arith, length, le→ltb_false, lt→ltb,
}
use libelliptics_proxy.Result.{ok, throw, length_error}
use libelliptics_proxy.Sorting.{sort, set_difference, Sorted, count}
use libelliptics_proxy.Sorting.Counting.{count-sort, sort-Sorted, count-set_difference}
use libelliptics_proxy.Upload.{WriteHelper, get_incomplete_groups, max_size}

-- Where no more groups were written than wanted, and no more are wanted than a vector holds, the result holds each group as often as it is
-- wanted beyond the times that it was written; the groups written are put in order, and the results
-- stay.
pub get_incomplete_groups_lem :
    (h : WriteHelper)
    → length h.upload_groups ≤ length h.desired_groups
    → length h.desired_groups ≤ max_size
    → (gs : List ℤ) × (h' : WriteHelper) × (get_incomplete_groups h ≡ ok (gs, h'))
      × ((g : ℤ) → count g gs ≡ count g h.desired_groups - count g h.upload_groups)
      × ((g : ℤ) → count g h'.upload_groups ≡ count g h.upload_groups)
      × Sorted h'.upload_groups
      × (h'.ret ≡ h.ret)
unfolding get_incomplete_groups
get_incomplete_groups_lem h le small =
    let room = (length h.desired_groups + word - length h.upload_groups) % word in
    let fits : room ≤ max_size = omega arith in
    (
      set_difference (sort h.desired_groups) (sort h.upload_groups),
      record h { desired_groups = sort h.desired_groups; upload_groups = sort h.upload_groups },
      rw (le→ltb_false max_size room fits),
      λ g.
          count-set_difference g (sort h.desired_groups) (sort h.upload_groups)
            (sort-Sorted h.desired_groups) (sort-Sorted h.upload_groups)
          ∙ rw (count-sort g h.desired_groups, count-sort g h.upload_groups) refl,
      λ g. count-sort g h.upload_groups,
      sort-Sorted h.upload_groups,
      refl,
    )

-- Where more groups were written than wanted, though no more than a vector holds, the reservation
-- of the difference of the sizes, which wraps around, throws before anything is computed.
pub get_incomplete_groups_excess :
    (h : WriteHelper)
    → length h.desired_groups < length h.upload_groups
    → length h.upload_groups ≤ max_size
    → get_incomplete_groups h ≡ throw length_error
unfolding get_incomplete_groups
get_incomplete_groups_excess h lt small =
    let room = (length h.desired_groups + word - length h.upload_groups) % word in
    let huge : max_size < room = omega arith in rw (lt→ltb max_size room huge)
