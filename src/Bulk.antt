-- ===== src/Bulk.antt =====
-- `bulk_read_impl` and `bulk_write_impl` of src/proxy.cpp. Both take `cflags` and use it nowhere.
pub mod Records
pub mod Replicas
pub mod Naming
pub mod ByKey
pub mod Writing
pub mod Reading
use libelliptics_proxy.Base.{
  ℕ, zero, suc, ◌+◌, ◌-◌, ℤ, pos, Bool, true, false, not, List, [], ◌∷◌, ◌++◌, Option, none, some,
  ltb, ◌==◌, eqb_ℤ, to_size, int_pattern, Bytes, length, take, drop, replicate, is_empty,
  if◌then◌else◌,
}
use libelliptics_proxy.Result.{
  Exception, Result, ok, throw, undefined, runtime_error, small_record, counts_differ,
  not_enough_copies,
}
use libelliptics_proxy.OrderedMap.{Map, find, insert, assign, at_or}
use libelliptics_proxy.Ids.{DnetId, KeyId, Key, id_of, id_less, key_less, dnet_id_less, default_key}
use libelliptics_proxy.Lookup.{Platform, LookupResult, parse_lookup}
use libelliptics_proxy.Upload.{uploads_need}
use libelliptics_proxy.Groups.{get_groups}
use libelliptics_proxy.Proxy.{
  External, IoAttr, Settings, World, Event, M, pure, lift, fail, ask, tell, require, rethrow_logged,
  ◌>>=◌, ◌>>◌,
}

-- A `dnet_io_attr` of zeros but for the identifier and the size.
unfoldable pub bulk_attr : ℕ → Bytes → ℕ → IoAttr
bulk_attr id_size id size = record {
  id = id;
  parent = replicate id_size 0;
  start = 0;
  num = 0;
  flags = 0;
  type = pos 0;
  size = size;
}

-- `m[key].push_back(v)`.
unfoldable pub push_at {ℓ} : {V : Type ℓ} → ℕ → Key → V → Map Key (List V) → Map Key (List V)
push_at id_size key v m =
    assign (key_less id_size) key (at_or (key_less id_size) [] key m ++ (v ∷ [])) m

-- No group list is shorter than `need`.
unfoldable pub all_enough : ℕ → Map Key (List ℤ) → Bool
all_enough need [] = true
all_enough need ((k, gs) ∷ m) = if ltb (length gs) need then false else all_enough need m

-- `garbage` is what the memory of a default key's column holds.
module _ (x : External) (garbage : ℤ) where
  -- `Key::transform`.
  unfoldable pub transform_key : Key → M Key
  transform_key key = do
    id ← ask x.identify (Event.transform key.filename)
    pure (record key { by_id = true; id = id_of id })

  -- The copy of a key that is transformed where the key is by name.
  unfoldable pub identified : Key → M Key
  unfolding transform_key
  identified key = if key.by_id then pure key else transform_key key

  -- The attributes of the objects, and the keys by their identifiers.
  unfoldable pub read_attrs : List Key → Map KeyId Key → M (List IoAttr × Map KeyId Key)
  unfolding identified bulk_attr
  read_attrs [] m = pure ([], m)
  read_attrs (key ∷ keys) m = do
    tmp ← identified key
    (ios, m') ← read_attrs keys (insert (id_less x.platform.id_size) tmp.id key m)
    pure (bulk_attr x.platform.id_size tmp.id.id.id 0 ∷ ios, m')

  -- One record of the answer: the identifier, the size of the data and the data.
  unfoldable pub read_record : Bytes → Result (KeyId × Bytes)
  read_record r =
      let n = x.platform.id_size in
      let size = x.read_u64 (take 8 (drop n r)) in
      let id : DnetId = record { id = take n r; group_id = pos 0; type = pos 0 } in
      if ltb (length r) (n + 8)
      then throw (runtime_error small_record)
      else if not (size == length r - n - 8)
      then throw (runtime_error small_record)
      else ok (id_of id, take size (drop (n + 8) r))

  -- The results by key; an identifier that nobody asked for goes under a default key.
  unfoldable pub collect_records :
      List Bytes → Map KeyId Key → Map Key Bytes → Result (Map Key Bytes)
  unfolding read_record
  collect_records [] m ret = ok ret
  collect_records (r ∷ rs) m ret = elim (read_record r) [
    | throw e ↦ throw e
    | undefined ↦ undefined
    | ok (id, bytes) ↦
        let n = x.platform.id_size in
        let key = at_or (id_less n) (default_key n garbage) id m in
        let m' = insert (id_less n) id (default_key n garbage) m in
        collect_records rs m' (insert (key_less n) key bytes ret)
  ]

  unfoldable pub bulk_read_impl : Settings → List Key → List ℤ → M (Map Key Bytes)
  unfolding get_groups read_attrs collect_records
  bulk_read_impl c [] groups = pure []
  bulk_read_impl c (key ∷ keys) groups = do
    tell Event.open_session
    lgroups ← get_groups x c key groups (pos 0)
    rethrow_logged do
      tell (Event.set_groups lgroups)
      (ios, m) ← read_attrs (key ∷ keys) []
      result ← ask x.texts (Event.bulk_read ios)
      lift (collect_records result m [])

  unfoldable pub write_attrs :
      List Key → List Bytes → Map DnetId Key → M (List IoAttr × Map DnetId Key)
  unfolding identified bulk_attr
  write_attrs [] contents m = pure ([], m)
  write_attrs (key ∷ keys) [] m = lift undefined
  write_attrs (key ∷ keys) (content ∷ contents) m = do
    tmp ← identified key
    (ios, m') ← write_attrs keys contents (insert (dnet_id_less x.platform.id_size) tmp.id.id key m)
    pure (bulk_attr x.platform.id_size tmp.id.id.id (length content) ∷ ios, m')

  -- The results and their groups, by key.
  unfoldable pub sort_results :
      List LookupResult
      → Map DnetId Key
      → Map Key (List LookupResult)
      → Map Key (List ℤ)
      → Map Key (List LookupResult) × Map Key (List ℤ)
  unfolding push_at
  sort_results [] m res res_groups = (res, res_groups)
  sort_results (lr ∷ result) m res res_groups =
      let n = x.platform.id_size in
      let key = at_or (dnet_id_less n) (default_key n garbage) lr.id m in
      let m' = insert (dnet_id_less n) lr.id (default_key n garbage) m in
      sort_results result m' (push_at n key lr res) (push_at n key lr.group res_groups)

  -- Every object is removed from the groups that it was written to.
  unfoldable pub remove_all : Map Key (List ℤ) → M (Unit {0})
  remove_all [] = pure tt
  remove_all ((key, gs) ∷ m) = do
    tell (Event.set_groups gs)
    ask x.done (Event.remove_key key)
    remove_all m

  unfoldable pub check_copies : ℕ → Map Key (List ℤ) → M (Unit {0})
  unfolding all_enough remove_all
  check_copies need res_groups =
      if all_enough need res_groups
      then pure tt
      else (remove_all res_groups >> fail not_enough_copies)

  -- The policy of the call where it has one, that of the settings otherwise, as a `size_t`.
  unfoldable pub replication_need : Settings → List ℤ → ℤ → ℕ
  unfolding uploads_need to_size
  replication_need c groups success_copies_num =
      let policy =
        if not (eqb_ℤ success_copies_num (pos 0))
        then success_copies_num
        else c.success_copies_num in
      let count = if length groups == 0 then int_pattern c.replication_count else length groups in
      uploads_need (to_size policy) count

  unfoldable pub bulk_write_impl :
      Settings → List Key → List Bytes → List ℤ → ℤ → M (Map Key (List LookupResult))
  unfolding get_groups write_attrs parse_lookup sort_results check_copies replication_need
  bulk_write_impl c [] contents groups success_copies_num = pure []
  bulk_write_impl c (key ∷ keys) contents groups success_copies_num = do
    tell Event.open_session
    lgroups ← get_groups x c key groups (pos 0)
    rethrow_logged do
      require (length (key ∷ keys) == length contents) counts_differ
      tell (Event.set_groups lgroups)
      (ios, m) ← write_attrs (key ∷ keys) contents []
      lookup ← ask x.text (Event.bulk_write ios contents)
      result ← lift (parse_lookup x.platform c.base_port c.eblob_style_path lookup)
      let sorted = sort_results result m [] []
      check_copies (replication_need c groups success_copies_num) sorted.1
      pure sorted.0
