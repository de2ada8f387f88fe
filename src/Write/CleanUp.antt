-- ===== src/Write/CleanUp.antt =====
-- What `write_impl` (src/proxy.cpp) removes after a chunked upload that missed some groups.
use libelliptics_proxy.Base.{
  ◌-◌, ◌≤◌, ◌<◌, ◌≡◌, refl, ℤ, true, false, ◌==◌, List, ◌∷◌, length, arith,
}
use libelliptics_proxy.Result.{ok}
use libelliptics_proxy.Sorting.{count}
use libelliptics_proxy.Upload.{WriteHelper, has_incomplete_groups, max_size}
use libelliptics_proxy.Upload.Incomplete.{get_incomplete_groups_lem}
use libelliptics_proxy.Proxy.{External, Settings, World, Event, note}
use libelliptics_proxy.Write.{Request, clean_up}

module _ (x : External) (c : Settings) where
  -- After a chunked upload that reached fewer groups than it was meant for, of which there are no
  -- more than a vector holds, and where the node grants removals, the object is removed
  -- once, by its name, from the groups that are wanted more often than they were reached, and the
  -- results and the groups reached stay as they are but for their order.
  pub clean_up_incomplete :
      (r : Request) (helper : WriteHelper) (w : World)
      → length helper.upload_groups < length helper.desired_groups
      → length helper.desired_groups ≤ max_size
      → ((es : List Event) → x.done es ≡ ok tt)
      → (gs : List ℤ) × (h : WriteHelper) × (clean_up x c r true helper w
          ≡ (ok h, note (note w (Event.set_groups gs)) (Event.remove_name r.key.filename)))
        × ((g : ℤ) → count g gs ≡ count g helper.desired_groups - count g helper.upload_groups)
        × (h.ret ≡ helper.ret)
        × ((g : ℤ) → count g h.upload_groups ≡ count g helper.upload_groups)
  unfolding clean_up has_incomplete_groups
  clean_up_incomplete r helper w fewer small done =
      let (gs, h, e, missing, kept, sorted, same) =
        get_incomplete_groups_lem helper (omega arith) small in
      let differ : (length helper.desired_groups == length helper.upload_groups) ≡ false =
        ground arith in
      (
        gs,
        h,
        rw (differ, e, done (Event.remove_name r.key.filename ∷ Event.set_groups gs ∷ w.trace))
            refl,
        missing,
        same,
        kept,
      )
