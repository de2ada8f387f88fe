-- ===== src/Write.antt =====
-- `EllipticsProxy::write_impl` of src/proxy.cpp, its parts in the order of the code.
pub mod Pieces
pub mod Rounds
pub mod Loop
pub mod Chunks
pub mod Failures
pub mod Whole
pub mod CleanUp
pub mod Uploaded
pub mod Session
use libelliptics_proxy.Base.{
  ℕ, zero, suc, ◌+◌, ◌%◌, ◌^◌, ℤ, pos, Bool, true, false, not, ◌&&◌, ◌||◌, List, [], ◌∷◌, ◌++◌, ltb,
  leb, ◌==◌, ltb_ℤ, eqb_ℤ, to_size, int_pattern, int_of_pattern, word, Bytes, length, take, drop,
  is_empty, if◌then◌else◌,
}
use libelliptics_proxy.Result.{
  Exception, Result, ok, throw, undefined, too_few_states, metabase_silent, not_enough_copies,
  is_std,
}
use libelliptics_proxy.Ids.{DnetId, Key}
use libelliptics_proxy.Lookup.{Platform, LookupResult, parse_lookup}
use libelliptics_proxy.Text.{substr}
use libelliptics_proxy.Upload.{
  WriteHelper, write_helper, update_lookup, fix_size, helper_is_good, has_incomplete_groups,
  get_incomplete_groups,
}
use libelliptics_proxy.Groups.{get_groups, has_meta_info}
use libelliptics_proxy.Metabase.{get_metabalancer_groups, upload_meta_info}
use libelliptics_proxy.Proxy.{
  External, Settings, World, Event, M, pure, lift, raise, fail, ask, tell, note, require,
  rethrow_logged, catching, meta_optional, meta_normal, meta_mandatory, ◌>>=◌, ◌>>◌,
}

-- The arguments of a write; `embeds` are the packed texts of the embedded objects.
pub record Request : Type 0 where
  pub key : Key
  pub content : Bytes
  pub offset : ℕ
  pub size : ℕ
  pub cflags : ℕ
  pub ioflags : ℕ
  pub groups : List ℤ
  pub replication_count : ℕ
  pub embeds : List Bytes

-- The packed objects one behind the other, in front of the data.
unfoldable pub content_of : List Bytes → Bytes → Bytes
content_of [] content = content
content_of (e ∷ es) content = e ++ content_of es content

-- `if (replication_count != 0 && replication_count < lgroups.size()) lgroups.erase(…)`.
unfoldable pub first_groups : ℕ → List ℤ → List ℤ
first_groups replication_count lgroups =
    if not (replication_count == 0) && ltb replication_count (length lgroups)
    then take replication_count lgroups
    else lgroups

module _ (x : External) (c : Settings) where
  unfoldable pub parse : Bytes → M (List LookupResult)
  unfolding parse_lookup
  parse lookup = lift (parse_lookup x.platform c.base_port c.eblob_style_path lookup)

  -- The groups of the metabase, in place of `lgroups` where the request does not name enough.
  unfoldable pub balanced_groups : Request → ℕ → List ℤ → M (List ℤ)
  unfolding get_metabalancer_groups
  balanced_groups r replication_count lgroups =
      if not (length r.groups == replication_count) || (c.metabase_usage == meta_mandatory)
      then get_metabalancer_groups x c replication_count
      else pure lgroups

  unfoldable pub after_silence : List ℤ → M (List ℤ)
  after_silence lgroups = do
    tell Event.log_error
    if leb meta_normal c.metabase_usage then fail metabase_silent else pure lgroups

  unfoldable pub choose_groups : Request → ℕ → M (List ℤ)
  unfolding get_groups balanced_groups after_silence first_groups
  choose_groups r replication_count = do
    lgroups ← get_groups x c r.key r.groups (pos 0)
    chosen ←
        if leb meta_optional c.metabase_usage
        then catching is_std (balanced_groups r replication_count lgroups)
            (λ e. after_silence lgroups)
        else pure lgroups
    pure (first_groups replication_count chosen)

  -- The call for one chunk behind the first: the last one is committed.
  unfoldable pub chunk_event : Key → Bytes → Bytes → ℕ → Event
  chunk_event key content write_content offset =
      if leb (length content) ((offset + to_size c.chunk_size) % word)
      then Event.write_commit key write_content offset 0
      else Event.write_plain key write_content offset

  -- The `do … while` loop, from the offset of the chunk that was sent last. Each round moves the
  -- offset on by a whole chunk, so the length of the content is fuel enough.
  unfoldable pub chunk_loop : ℕ → Key → Bytes → ℕ → Bool → WriteHelper → M WriteHelper
  unfolding substr parse update_lookup
  chunk_loop zero key content offset first_iter helper = lift undefined
  chunk_loop (suc fuel) key content offset first_iter helper = do
    tell (Event.set_groups helper.upload_groups)
    let next = (offset + to_size c.chunk_size) % word
    write_content ← lift (substr content next (to_size c.chunk_size))
    lookup ← ask x.text (chunk_event key content write_content next)
    results ← parse lookup
    let updated = update_lookup helper results first_iter
    let rest = chunk_loop fuel key content next false updated
    if helper_is_good updated && ltb ((next + to_size c.chunk_size) % word) (length content)
        then rest
        else pure updated

  unfoldable pub write_chunked : Key → Bytes → ℕ → WriteHelper → M WriteHelper
  unfolding substr parse
  write_chunked key content offset helper = do
    write_content ← lift (substr content offset (to_size c.chunk_size))
    lookup ← ask x.text (Event.write_prepare key write_content offset (length content))
    results ← parse lookup
    let prepared = update_lookup helper results false
    let rest = chunk_loop (suc (length content)) key content offset true prepared
    written ← if helper_is_good prepared then rest else pure prepared
    pure (fix_size written (x.platform.print (pos (length content))))

  unfoldable pub is_chunked : Request → Bytes → Bool
  is_chunked r content =
      not (eqb_ℤ c.chunk_size (pos 0))
      && ltb (to_size c.chunk_size) (length content)
      && not r.key.by_id
      && not (x.is_prepare r.ioflags || x.is_commit r.ioflags || x.is_plain_write r.ioflags)

  -- The identifier of the object, which a key by name asks of the session.
  unfoldable pub identify_key : Key → M DnetId
  identify_key key = if key.by_id then pure key.id.id else (do
    id ← ask x.identify (Event.transform key.filename)
    pure (record id { type = key.column }))

  -- The call for an object that is written in one piece.
  unfoldable pub whole_write : Request → DnetId → Bytes → Event
  whole_write r id content =
      if r.key.by_id
      then Event.write_data_wait_id id content r.offset
      else if x.is_prepare r.ioflags
      then Event.write_prepare r.key content r.offset r.size
      else if x.is_commit r.ioflags
      then Event.write_commit r.key content r.offset r.size
      else if x.is_plain_write r.ioflags
      then Event.write_plain r.key content r.offset
      else Event.write_data_wait r.key content r.offset

  unfoldable pub write_whole : Request → DnetId → Bytes → WriteHelper → M WriteHelper
  unfolding whole_write parse update_lookup
  write_whole r id content helper = do
    lookup ← ask x.text (whole_write r id content)
    results ← parse lookup
    pure (update_lookup helper results true)

  -- Too few copies: the object is removed from all groups.
  unfoldable pub check_upload : Request → List ℤ → WriteHelper → M (Unit {0})
  check_upload r lgroups helper = if helper_is_good helper then pure tt else (do
    tell (Event.set_groups lgroups)
    ask x.done (Event.remove_name r.key.filename)
    fail not_enough_copies)

  -- After a chunked upload the object is removed from the groups that lack it in part.
  unfoldable pub clean_up : Request → Bool → WriteHelper → M WriteHelper
  unfolding get_incomplete_groups has_incomplete_groups
  clean_up r chunked helper =
      if chunked && has_incomplete_groups helper
      then (do
        (incomplete, sorted) ← lift (get_incomplete_groups helper)
        tell (Event.set_groups incomplete)
        ask x.done (Event.remove_name r.key.filename)
        pure sorted)
      else pure helper

  -- The inner `try`: the upload itself.
  unfoldable pub upload : Request → List ℤ → DnetId → Bytes → Bool → WriteHelper → M WriteHelper
  unfolding write_chunked write_whole check_upload clean_up
  upload r lgroups id content chunked helper = do
    written ←
        if chunked
        then write_chunked r.key content r.offset helper
        else write_whole r id content helper
    check_upload r lgroups written
    clean_up r chunked written

  -- What follows the upload; the flags of the session end as `ioflags`.
  unfoldable pub write_meta : Request → List ℤ → WriteHelper → M (Unit {0})
  unfolding upload_meta_info
  write_meta r lgroups helper = do
    tell (Event.set_cflags 0)
    ask x.done (Event.write_metadata r.key r.key.filename helper.upload_groups)
    tell (Event.set_cflags r.ioflags)
    if has_meta_info x c then upload_meta_info x c lgroups r.key else pure tt

  -- The outer `try`.
  unfoldable pub write_to : Request → List ℤ → WriteHelper → M (List LookupResult)
  unfolding content_of is_chunked identify_key upload write_meta
  write_to r lgroups helper = do
    tell (Event.set_groups lgroups)
    let content = content_of r.embeds r.content
    let chunked = is_chunked r content
    id ← identify_key r.key
    written ← rethrow_logged (upload r lgroups id content chunked helper)
    write_meta r lgroups written
    pure written.ret

  -- The number of copies that is asked for, or that of the settings.
  unfoldable pub copies : Request → ℕ
  copies r =
      if r.replication_count == 0 then int_pattern c.replication_count else r.replication_count

  unfoldable pub write_impl : Request → M (List LookupResult)
  unfolding copies choose_groups write_helper write_to
  write_impl r = do
    tell Event.open_session
    tell (Event.set_cflags r.cflags)
    tell (Event.set_ioflags r.ioflags)
    states ← ask x.number Event.state_num
    require (not (ltb_ℤ states c.state_num)) too_few_states
    lgroups ← choose_groups r (copies r)
    let helper = write_helper c.success_copies_num (int_of_pattern (copies r)) lgroups
    rethrow_logged (write_to r lgroups helper)
