-- ===== src/Write/Whole.antt =====
-- A write in one piece from end to end: `write_impl` (src/proxy.cpp) where the content is not cut
-- into chunks and the metabase takes no part.
use libelliptics_proxy.Base.{
  ℕ, ◌≡◌, refl, ap, ◌∙◌, ℤ, Bool, true, false, List, ◌∷◌, map, Bytes, length, length-map, ltb_ℤ,
  to_size, int_of_pattern,
}
use libelliptics_proxy.Result.{ok}
use libelliptics_proxy.Ids.{DnetId, Key}
use libelliptics_proxy.Lookup.{LookupResult, parse_lookup}
use libelliptics_proxy.Upload.{
  WriteHelper, write_helper, update_lookup, helper_is_good, upload_is_good,
}
use libelliptics_proxy.Groups.{get_groups, has_meta_info}
use libelliptics_proxy.Proxy.{
  External, Settings, World, Event, M, pure, meta_none, bind_ok, rethrow_logged, log_failure, note,
  ◌>>=◌, ◌>>◌,
}
use libelliptics_proxy.Write.{
  Request, content_of, first_groups, parse, choose_groups, is_chunked, identify_key, whole_write,
  write_whole, check_upload, clean_up, upload, write_meta, write_to, copies, write_impl,
}

module _ (x : External) (c : Settings) where
  -- The groups of the request, cut to the number of copies.
  pub choose_groups_named :
      (r : Request) (n : ℕ) (g : ℤ) (gs : List ℤ) (w : World)
      → c.metabase_usage ≡ meta_none
      → r.groups ≡ g ∷ gs
      → choose_groups x c r n w ≡ (ok (first_groups n r.groups), w)
  unfolding choose_groups get_groups
  choose_groups_named r n g gs w off named = rw (off, named) refl

  -- One call, whose results are enough.
  upload_whole :
      (r : Request) (lgroups : List ℤ) (id : DnetId) (content l : Bytes)
      (results : List LookupResult) (helper : WriteHelper) (w : World)
      → let es = whole_write x c r id content ∷ w.trace in
        x.text es ≡ ok l
        → parse_lookup x.platform c.base_port c.eblob_style_path l ≡ ok results
        → helper_is_good (update_lookup helper results true) ≡ true
        → upload x c r lgroups id content false helper w
          ≡ (ok (update_lookup helper results true), record w { trace = es })
  unfolding upload write_whole parse check_upload clean_up
  upload_whole r lgroups id content l results helper w answer parsed good =
      rw (answer, parsed, good) refl

  pub fresh_is_good :
      (count : ℤ) (lgroups : List ℤ) (results : List LookupResult) (verdict : Bool)
      → upload_is_good (to_size c.success_copies_num) (to_size count) (length results) ≡ verdict
      → helper_is_good
          (update_lookup (write_helper c.success_copies_num count lgroups) results true)
        ≡ verdict
  unfolding helper_is_good update_lookup write_helper
  fresh_is_good count lgroups results verdict good =
      rw (length-map (λ (l : LookupResult). l.group) results) good

  -- What a write in one piece asks for, up to the call that writes.
  abbrev pub before_write : Request → List Event → List Event
  before_write r es =
      Event.transform r.key.filename
      ∷ Event.set_groups (first_groups (copies x c r) r.groups)
      ∷ Event.state_num
      ∷ Event.set_ioflags r.ioflags
      ∷ Event.set_cflags r.cflags
      ∷ Event.open_session
      ∷ es

  -- The call that writes, and what follows it.
  abbrev pub after_write : Request → DnetId → List LookupResult → List Event → List Event
  after_write r id results es =
      Event.set_cflags r.ioflags
      ∷ Event.write_metadata r.key r.key.filename (map (λ (l : LookupResult). l.group) results)
      ∷ Event.set_cflags 0
      ∷ whole_write x c r (record id { type = r.key.column }) (content_of r.embeds r.content)
      ∷ before_write r es

  pub identify_named :
      (key : Key) (id : DnetId) (w : World)
      → key.by_id ≡ false
      → x.identify (Event.transform key.filename ∷ w.trace) ≡ ok id
      → identify_key x c key w
        ≡ (ok (record id { type = key.column }), note w (Event.transform key.filename))
  unfolding identify_key
  identify_named key id w named identified = rw (named, identified) refl

  pub write_meta_alone :
      (r : Request) (lgroups : List ℤ) (helper : WriteHelper) (w : World)
      → has_meta_info x c ≡ false
      → ((es : List Event) → x.done es ≡ ok tt)
      → (write_meta x c r lgroups helper >> pure helper.ret) w ≡ (
        ok helper.ret,
        record w {
          trace =
              Event.set_cflags r.ioflags
              ∷ Event.write_metadata r.key r.key.filename helper.upload_groups
              ∷ Event.set_cflags 0
              ∷ w.trace;
        },
      )
  unfolding write_meta
  write_meta_alone r lgroups helper w off done =
      rw
        (
          done (
              Event.write_metadata r.key r.key.filename helper.upload_groups
              ∷ Event.set_cflags 0
              ∷ w.trace),
          off,
        )
        refl

  write_to_whole :
      (r : Request) (lgroups : List ℤ) (id : DnetId) (l : Bytes) (results : List LookupResult)
      (helper : WriteHelper) (w : World)
      → let content = content_of r.embeds r.content in
        let asked = Event.transform r.key.filename ∷ Event.set_groups lgroups ∷ w.trace in
        let written = whole_write x c r (record id { type = r.key.column }) content ∷ asked in
        let updated = update_lookup helper results true in
        r.key.by_id ≡ false
        → is_chunked x c r content ≡ false
        → has_meta_info x c ≡ false
        → x.identify asked ≡ ok id
        → x.text written ≡ ok l
        → parse_lookup x.platform c.base_port c.eblob_style_path l ≡ ok results
        → helper_is_good updated ≡ true
        → ((es : List Event) → x.done es ≡ ok tt)
        → write_to x c r lgroups helper w ≡ (
          ok updated.ret,
          record w {
            trace =
                Event.set_cflags r.ioflags
                ∷ Event.write_metadata r.key r.key.filename updated.upload_groups
                ∷ Event.set_cflags 0
                ∷ written;
          },
        )
  unfolding write_to
  write_to_whole r lgroups id l results helper w named whole off identified answer parsed good
        done =
      let content = content_of r.embeds r.content in
      let id' : DnetId = record id { type = r.key.column } in
      let updated = update_lookup helper results true in
      let w1 = note w (Event.set_groups lgroups) in
      let w2 = note w1 (Event.transform r.key.filename) in
      let w3 = note w2 (whole_write x c r id' content) in
      let rest : WriteHelper → M (List LookupResult) =
        λ written. write_meta x c r lgroups written >> pure written.ret in
      let uploading : DnetId → M WriteHelper =
        λ i. rethrow_logged (upload x c r lgroups i content (is_chunked x c r content) helper) in
      let uploaded : upload x c r lgroups id' content (is_chunked x c r content) helper w2
          ≡ (ok updated, w3) =
        rw whole (upload_whole r lgroups id' content l results helper w2 answer parsed good) in
      bind_ok (identify_key x c r.key) (λ i. uploading i >>= rest) w1 w2 id'
        (identify_named r.key id w1 named identified)
      ∙ bind_ok (uploading id') rest w2 w3 updated (ap log_failure uploaded)
      ∙ write_meta_alone r lgroups updated w3 off done

  -- A write of a key by name to groups that the call names, with no metabase: where enough nodes are
  -- alive, the content is not cut into chunks, and the node answers with results that are enough for
  -- the policy and grants the calls behind, the results are returned; the calls are those of one write to the first groups, as many
  -- as copies are asked for, and of the record of the groups that were reached.
  pub write_impl_whole :
      (r : Request) (g : ℤ) (gs : List ℤ) (states : ℤ) (id : DnetId) (l : Bytes)
      (results : List LookupResult) (w : World)
      → let content = content_of r.embeds r.content in
        let asked = before_write r w.trace in
        c.metabase_usage ≡ meta_none
        → has_meta_info x c ≡ false
        → r.groups ≡ g ∷ gs
        → r.key.by_id ≡ false
        → is_chunked x c r content ≡ false
        → x.number (
            Event.state_num
            ∷ Event.set_ioflags r.ioflags
            ∷ Event.set_cflags r.cflags
            ∷ Event.open_session
            ∷ w.trace)
          ≡ ok states
        → ltb_ℤ states c.state_num ≡ false
        → x.identify asked ≡ ok id
        → x.text (whole_write x c r (record id { type = r.key.column }) content ∷ asked) ≡ ok l
        → parse_lookup x.platform c.base_port c.eblob_style_path l ≡ ok results
        → upload_is_good
            (to_size c.success_copies_num)
            (to_size (int_of_pattern (copies x c r)))
            (length results)
          ≡ true
        → ((es : List Event) → x.done es ≡ ok tt)
        → write_impl x c r w ≡ (ok results, record w { trace = after_write r id results w.trace })
  unfolding write_impl
  write_impl_whole r g gs states id l results w usage off named by_name whole alive enough
        identified answer parsed good done =
      let lgroups = first_groups (copies x c r) r.groups in
      let helper = write_helper c.success_copies_num (int_of_pattern (copies x c r)) lgroups in
      let w0 : World = record w {
        trace =
            Event.state_num
            ∷ Event.set_ioflags r.ioflags
            ∷ Event.set_cflags r.cflags
            ∷ Event.open_session
            ∷ w.trace;
      } in
      rw (alive, enough)
        (bind_ok (choose_groups x c r (copies x c r))
            (λ chosen. rethrow_logged (
              write_to x c r chosen
                (write_helper c.success_copies_num (int_of_pattern (copies x c r)) chosen)))
            w0 w0 lgroups (choose_groups_named r (copies x c r) g gs w0 usage named)
          ∙ ap log_failure (
              write_to_whole r lgroups id l results helper w0 by_name whole off identified answer
                parsed (fresh_is_good (int_of_pattern (copies x c r)) lgroups results true good)
                done))
