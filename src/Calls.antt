-- ===== src/Calls.antt =====
-- `lookup_impl`, `remove_impl`, `range_get_impl` and `lookup_addr_impl` of src/proxy.cpp.
pub mod Removal
pub mod Ranges
pub mod Lookups
use libelliptics_proxy.Base.{
  ℕ, zero, suc, ◌+◌, ℤ, pos, negsuc, Bool, true, false, List, [], ◌∷◌, Option, none, some, ltb,
  ◌==◌, Bytes, length, take, replicate, drop, is_empty, if◌then◌else◌,
}
use libelliptics_proxy.Result.{
  Exception, Result, ok, throw, undefined, bad_lexical_cast, range_failed, remove_failed, is_std,
}
use libelliptics_proxy.Text.{find_first, past}
use libelliptics_proxy.Ids.{DnetId, Key}
use libelliptics_proxy.Lookup.{Platform, LookupResult, parse_lookup, colon}
use libelliptics_proxy.Config.{Remote, remote}
use libelliptics_proxy.Groups.{get_groups}
use libelliptics_proxy.Proxy.{
  External, IoAttr, Settings, World, Event, M, pure, lift, fail, ask, tell, rethrow_logged,
  catching, handle, ◌>>=◌, ◌>>◌,
}

-- `parse_lookup(key, l)[0]`: an empty vector has no element 0.
unfoldable pub first_result : List LookupResult → Result LookupResult
first_result [] = undefined
first_result (r ∷ rs) = ok r

module _ (x : External) where
  unfoldable pub lookup_impl : Settings → Key → List ℤ → M LookupResult
  unfolding get_groups parse_lookup first_result
  lookup_impl c key groups = do
    tell Event.open_session
    lgroups ← get_groups x c key groups (pos 0)
    rethrow_logged do
      tell (Event.set_groups lgroups)
      l ←
          ask x.text
            (if key.by_id then Event.lookup_id key.id.id else Event.lookup_name key.filename)
      results ← lift (parse_lookup x.platform c.base_port c.eblob_style_path l)
      lift (first_result results)

  -- A failed removal: the message names `groups[i]`, an element of the argument.
  unfoldable pub after_failure : List ℤ → ℕ → M Bool
  after_failure groups i =
      if ltb i (length groups) then (tell Event.log_error >> pure false) else lift undefined

  unfoldable pub remove_one : DnetId → ℤ → M Bool
  remove_one id group = do ask x.done (Event.remove_id (record id { group_id = group })); pure true

  -- The loop over the groups; it tells whether some removal went through.
  unfoldable pub remove_from : DnetId → List ℤ → ℕ → List ℤ → M Bool
  unfolding remove_one after_failure
  remove_from id groups i [] = pure false
  remove_from id groups i (g ∷ gs) = do
    removed ← catching is_std (remove_one id g) (λ e. after_failure groups i)
    others ← remove_from id groups (i + 1) gs
    pure (if removed then true else others)

  unfoldable pub remove_by_id : DnetId → List ℤ → List ℤ → M (Unit {0})
  remove_by_id id groups lgroups = do
    removed ← remove_from id groups 0 lgroups
    if removed then pure tt else fail remove_failed

  unfoldable pub remove_impl : Settings → Key → List ℤ → M (Unit {0})
  unfolding get_groups
  remove_impl c key groups = do
    tell Event.open_session
    lgroups ← get_groups x c key groups (pos 0)
    rethrow_logged do
      tell (Event.set_groups lgroups)
      if key.by_id
          then remove_by_id key.id.id groups lgroups
          else ask x.done (Event.remove_name key.filename)

  -- `io.parent` is filled with 0xff, or else from `from` once more.
  unfoldable pub range_attr : Key → Key → ℕ → ℕ → ℕ → IoAttr
  range_attr from to ioflags limit_start limit_num = record {
    id = if from.by_id then from.id.id.id else replicate x.platform.id_size 0;
    parent = if to.by_id then from.id.id.id else replicate x.platform.id_size 0xff;
    start = limit_start;
    num = limit_num;
    flags = ioflags;
    type = from.column;
    size = 0;
  }

  -- The first answer that is not empty; every exception is passed over.
  unfoldable pub read_range : IoAttr → List ℤ → M (List Bytes)
  read_range io [] = pure []
  read_range io (g ∷ gs) = do
    ret ← catching (λ e. true) (ask x.texts (Event.read_data_range io g)) (λ e. pure [])
    let others = read_range io gs
    if is_empty ret then others else pure ret

  unfoldable pub range_get_impl :
      Settings → Key → Key → ℕ → ℕ → ℕ → ℕ → List ℤ → Key → M (List Bytes)
  unfolding get_groups
  range_get_impl c from to cflags ioflags limit_start limit_num groups key = do
    tell Event.open_session
    lgroups ← get_groups x c key groups (pos 0)
    tell (Event.set_cflags cflags)
    tell (Event.set_ioflags ioflags)
    rethrow_logged do
      ret ← read_range (range_attr from to ioflags limit_start limit_num) lgroups
      if is_empty ret then fail range_failed else pure ret

  -- `substr(0, pos)` and `lexical_cast<int>(substr(pos + 1, npos))`.
  unfoldable pub read_remote : Bytes → Result Remote
  unfolding find_first
  read_remote ret =
      let found = find_first colon ret in
      let host : Bytes = elim found [ none ↦ ret | some i ↦ take i ret ] in
      elim (x.platform.read_int (drop (past found) ret)) [
        | none ↦ throw bad_lexical_cast
        | some port ↦ ok (remote host port)
      ]

  -- The loop goes over the argument, not over the groups that were chosen.
  unfoldable pub lookup_addresses : Key → List ℤ → M (List Remote)
  unfolding read_remote
  lookup_addresses key [] = pure []
  lookup_addresses key (g ∷ gs) = do
    ret ← ask x.text (
        if key.by_id
        then Event.lookup_address_id key.id.id g
        else Event.lookup_address_name key.filename g)
    addr ← lift (read_remote ret)
    addrs ← lookup_addresses key gs
    pure (addr ∷ addrs)

  unfoldable pub lookup_addr_impl : Settings → Key → List ℤ → M (List Remote)
  unfolding get_groups lookup_addresses
  lookup_addr_impl c key groups = do
    tell Event.open_session
    lgroups ← get_groups x c key groups (pos 0)
    lookup_addresses key groups
