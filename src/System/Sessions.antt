-- ===== src/System/Sessions.antt =====
-- The calls that open a session but do not write one object (src/proxy.cpp) preserve a predicate that
-- the calls for the weights preserve.
use libelliptics_proxy.Base.{
  ℕ, ◌+◌, ℤ, Bool, true, List, [], ◌∷◌, Bytes, refl, is_empty, if◌then◌else◌,
}
use libelliptics_proxy.Result.{is_std}
use libelliptics_proxy.OrderedMap.{Map}
use libelliptics_proxy.Ids.{DnetId, KeyId, Key}
use libelliptics_proxy.Calls.{
  lookup_impl, after_failure, remove_one, remove_from, remove_by_id, remove_impl, read_range,
  range_get_impl, read_remote, lookup_addresses, lookup_addr_impl,
}
use libelliptics_proxy.Read.{read_impl}
use libelliptics_proxy.Bulk.{
  transform_key, identified, read_attrs, bulk_read_impl, write_attrs, remove_all, check_copies,
  bulk_write_impl,
}
use libelliptics_proxy.Proxy.{External, Settings, World, Event, IoAttr}
use libelliptics_proxy.System.Keeping.{
  Preserves, IsKept, tell-Preserves, ask-Preserves, rethrow_logged-Preserves, catching-Preserves,
  quiet-if, parts, bind-Preserves, if-Preserves, pure-Preserves, lift-Preserves,
}
use libelliptics_proxy.System.Methods.{get_groups-Preserves}

module _ {x : External} {c : Settings} {I : World → Type 0} (keep : IsKept x c I) where
  pub lookup_impl-Preserves :
      (key : Key) (groups : List ℤ) → Preserves I (lookup_impl x c key groups)
  unfolding lookup_impl
  lookup_impl-Preserves key groups =
      search
        (
          parts,
          tell-Preserves keep,
          ask-Preserves keep,
          quiet-if,
          rethrow_logged-Preserves keep,
          get_groups-Preserves keep,
        )
        depth 12

  remove_one-Preserves : (id : DnetId) (group : ℤ) → Preserves I (remove_one x id group)
  unfolding remove_one
  remove_one-Preserves id group = search (parts, ask-Preserves keep) depth 9

  after_failure-Preserves : (groups : List ℤ) (i : ℕ) → Preserves I (after_failure x groups i)
  unfolding after_failure
  after_failure-Preserves groups i = search (parts, tell-Preserves keep) depth 9

  remove_from-Preserves :
      (id : DnetId) (groups : List ℤ) (i : ℕ) (gs : List ℤ)
      → Preserves I (remove_from x id groups i gs)
  unfolding remove_from
  remove_from-Preserves id groups i [] = search parts
  remove_from-Preserves id groups i (g ∷ gs) =
      bind-Preserves
        (catching-Preserves is_std (remove_one-Preserves id g)
          λ e. after_failure-Preserves groups i)
        λ removed.
          bind-Preserves (remove_from-Preserves id groups (i + 1) gs)
            λ others. pure-Preserves (if removed then true else others)

  remove_by_id-Preserves :
      (id : DnetId) (groups lgroups : List ℤ) → Preserves I (remove_by_id x id groups lgroups)
  unfolding remove_by_id
  remove_by_id-Preserves id groups lgroups = search (parts, remove_from-Preserves) depth 9

  pub remove_impl-Preserves :
      (key : Key) (groups : List ℤ) → Preserves I (remove_impl x c key groups)
  unfolding remove_impl
  remove_impl-Preserves key groups =
      search
        (
          parts,
          tell-Preserves keep,
          ask-Preserves keep,
          rethrow_logged-Preserves keep,
          get_groups-Preserves keep,
          remove_by_id-Preserves,
        )
        depth 12

  read_range-Preserves : (io : IoAttr) (gs : List ℤ) → Preserves I (read_range x io gs)
  unfolding read_range
  read_range-Preserves io [] = search parts
  read_range-Preserves io (g ∷ gs) =
      bind-Preserves
        (catching-Preserves (λ e. true)
          (ask-Preserves keep x.texts (Event.read_data_range io g) refl) λ e. pure-Preserves [])
        λ ret. if-Preserves (is_empty ret) (read_range-Preserves io gs) (pure-Preserves ret)

  pub range_get_impl-Preserves :
      (from to : Key) (cflags ioflags limit_start limit_num : ℕ) (groups : List ℤ) (key : Key)
      → Preserves I (range_get_impl x c from to cflags ioflags limit_start limit_num groups key)
  unfolding range_get_impl
  range_get_impl-Preserves from to cflags ioflags limit_start limit_num groups key =
      search
        (
          parts,
          tell-Preserves keep,
          rethrow_logged-Preserves keep,
          get_groups-Preserves keep,
          read_range-Preserves,
        )
        depth 12

  lookup_addresses-Preserves : (key : Key) (gs : List ℤ) → Preserves I (lookup_addresses x key gs)
  unfolding lookup_addresses
  lookup_addresses-Preserves key [] = search parts
  lookup_addresses-Preserves key (g ∷ gs) =
      bind-Preserves (ask-Preserves keep x.text _ (quiet-if key.by_id _ _ refl refl)) λ ret.
        bind-Preserves (lift-Preserves (read_remote x ret)) λ addr.
          bind-Preserves (lookup_addresses-Preserves key gs) λ addrs. pure-Preserves (addr ∷ addrs)

  pub lookup_addr_impl-Preserves :
      (key : Key) (groups : List ℤ) → Preserves I (lookup_addr_impl x c key groups)
  unfolding lookup_addr_impl
  lookup_addr_impl-Preserves key groups =
      search (parts, tell-Preserves keep, get_groups-Preserves keep, lookup_addresses-Preserves)
        depth 9

  pub read_impl-Preserves :
      (key : Key) (offset size cflags ioflags : ℕ) (groups : List ℤ) (latest embeded : Bool)
      → Preserves I (read_impl x c key offset size cflags ioflags groups latest embeded)
  unfolding read_impl
  read_impl-Preserves key offset size cflags ioflags groups latest embeded =
      search
        (
          parts,
          tell-Preserves keep,
          ask-Preserves keep,
          quiet-if,
          rethrow_logged-Preserves keep,
          get_groups-Preserves keep,
        )
        depth 12

  module _ (garbage : ℤ) where
    identified-Preserves : (key : Key) → Preserves I (identified x garbage key)
    unfolding identified transform_key
    identified-Preserves key = search (parts, ask-Preserves keep) depth 9

    read_attrs-Preserves :
        (keys : List Key) (m : Map KeyId Key) → Preserves I (read_attrs x garbage keys m)
    unfolding read_attrs
    read_attrs-Preserves [] m = search parts
    read_attrs-Preserves (key ∷ keys) m =
        search (parts, identified-Preserves, read_attrs-Preserves keys) depth 9

    write_attrs-Preserves :
        (keys : List Key) (contents : List Bytes) (m : Map DnetId Key)
        → Preserves I (write_attrs x garbage keys contents m)
    unfolding write_attrs
    write_attrs-Preserves [] contents m = search parts
    write_attrs-Preserves (key ∷ keys) [] m = search parts
    write_attrs-Preserves (key ∷ keys) (content ∷ contents) m =
        search (parts, identified-Preserves, write_attrs-Preserves keys contents) depth 9

    remove_all-Preserves : (m : Map Key (List ℤ)) → Preserves I (remove_all x garbage m)
    unfolding remove_all
    remove_all-Preserves [] = search parts
    remove_all-Preserves ((key, gs) ∷ m) =
        bind-Preserves (tell-Preserves keep (Event.set_groups gs) refl) λ u.
          bind-Preserves (ask-Preserves keep x.done (Event.remove_key key) refl)
            λ v. remove_all-Preserves m

    check_copies-Preserves :
        (need : ℕ) (m : Map Key (List ℤ)) → Preserves I (check_copies x garbage need m)
    unfolding check_copies
    check_copies-Preserves need m = search (parts, remove_all-Preserves) depth 9

    pub bulk_read_impl-Preserves :
        (keys : List Key) (groups : List ℤ) → Preserves I (bulk_read_impl x garbage c keys groups)
    unfolding bulk_read_impl
    bulk_read_impl-Preserves [] groups = search parts
    bulk_read_impl-Preserves (key ∷ keys) groups =
        search
          (
            parts,
            tell-Preserves keep,
            ask-Preserves keep,
            rethrow_logged-Preserves keep,
            get_groups-Preserves keep,
            read_attrs-Preserves,
          )
          depth 14

    pub bulk_write_impl-Preserves :
        (keys : List Key) (contents : List Bytes) (groups : List ℤ) (policy : ℤ)
        → Preserves I (bulk_write_impl x garbage c keys contents groups policy)
    unfolding bulk_write_impl
    bulk_write_impl-Preserves [] contents groups policy = search parts
    bulk_write_impl-Preserves (key ∷ keys) contents groups policy =
        search
          (
            parts,
            tell-Preserves keep,
            ask-Preserves keep,
            rethrow_logged-Preserves keep,
            get_groups-Preserves keep,
            write_attrs-Preserves,
            check_copies-Preserves,
          )
          depth 14
