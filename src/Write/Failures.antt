-- ===== src/Write/Failures.antt =====
-- How `write_impl` (src/proxy.cpp) fails where too few copies are written.
use libelliptics_proxy.Base.{
  ◌≡◌, refl, ◌∙◌, ap, ℤ, true, false, List, ◌∷◌, Bytes, ltb_ℤ, length, to_size, int_of_pattern,
}
use libelliptics_proxy.Result.{ok, throw, runtime_error, not_enough_copies}
use libelliptics_proxy.Ids.{DnetId}
use libelliptics_proxy.Lookup.{LookupResult, parse_lookup}
use libelliptics_proxy.Upload.{
  WriteHelper, write_helper, update_lookup, helper_is_good, upload_is_good,
}
use libelliptics_proxy.Proxy.{
  External, Settings, World, Event, M, pure, meta_none, bind_ok, bind_throw, rethrow_logged,
  log_failure, note, ◌>>=◌, ◌>>◌,
}
use libelliptics_proxy.Write.{
  Request, content_of, first_groups, parse, choose_groups, is_chunked, identify_key, whole_write,
  write_impl, upload, check_upload, clean_up, write_whole, write_meta, write_to, copies,
}
use libelliptics_proxy.Write.Whole.{
  choose_groups_named, identify_named, before_write, fresh_is_good,
}

module _ (x : External) (c : Settings) where
  -- The copies written are too few.
  check_upload_lem :
      (r : Request) (lgroups : List ℤ) (helper : WriteHelper) (w : World)
      → helper_is_good helper ≡ false
      → ((es : List Event) → x.done es ≡ ok tt)
      → check_upload x c r lgroups helper w ≡ (
        throw (runtime_error not_enough_copies),
        record w { trace = Event.remove_name r.key.filename ∷ Event.set_groups lgroups ∷ w.trace },
      )
  unfolding check_upload
  check_upload_lem r lgroups helper w bad removes =
      rw (bad, removes (Event.remove_name r.key.filename ∷ Event.set_groups lgroups ∷ w.trace)) refl

  upload_few_copies :
      (r : Request) (lgroups : List ℤ) (id : DnetId) (content l : Bytes)
      (results : List LookupResult) (helper : WriteHelper) (w : World)
      → let es = whole_write x c r id content ∷ w.trace in
        x.text es ≡ ok l
        → parse_lookup x.platform c.base_port c.eblob_style_path l ≡ ok results
        → helper_is_good (update_lookup helper results true) ≡ false
        → ((es : List Event) → x.done es ≡ ok tt)
        → upload x c r lgroups id content false helper w ≡ (
          throw (runtime_error not_enough_copies),
          record w { trace = Event.remove_name r.key.filename ∷ Event.set_groups lgroups ∷ es },
        )
  unfolding upload write_whole parse
  upload_few_copies r lgroups id content l results helper w answer parsed bad removes =
      let updated = update_lookup helper results true in
      let w' : World = record w { trace = whole_write x c r id content ∷ w.trace } in
      rw (answer, parsed)
        (bind_throw (check_upload x c r lgroups updated) (λ u. clean_up x c r false updated) w' _ _
          (check_upload_lem r lgroups updated w' bad removes))

  -- What a write in one piece of too few copies asks for.
  abbrev pub given_up : Request → DnetId → List Event → List Event
  given_up r id es =
      Event.log_error
      ∷ Event.log_error
      ∷ Event.remove_name r.key.filename
      ∷ Event.set_groups (first_groups (copies x c r) r.groups)
      ∷ whole_write x c r (record id { type = r.key.column }) (content_of r.embeds r.content)
      ∷ before_write x c r es

  write_to_few_copies :
      (r : Request) (lgroups : List ℤ) (id : DnetId) (l : Bytes) (results : List LookupResult)
      (helper : WriteHelper) (w : World)
      → let content = content_of r.embeds r.content in
        let asked = Event.transform r.key.filename ∷ Event.set_groups lgroups ∷ w.trace in
        let written = whole_write x c r (record id { type = r.key.column }) content ∷ asked in
        r.key.by_id ≡ false
        → is_chunked x c r content ≡ false
        → x.identify asked ≡ ok id
        → x.text written ≡ ok l
        → parse_lookup x.platform c.base_port c.eblob_style_path l ≡ ok results
        → helper_is_good (update_lookup helper results true) ≡ false
        → ((es : List Event) → x.done es ≡ ok tt)
        → write_to x c r lgroups helper w ≡ (
          throw (runtime_error not_enough_copies),
          record w {
            trace =
                Event.log_error
                ∷ Event.remove_name r.key.filename
                ∷ Event.set_groups lgroups
                ∷ written;
          },
        )
  unfolding write_to
  write_to_few_copies r lgroups id l results helper w named whole identified answer parsed bad
        removes =
      let content = content_of r.embeds r.content in
      let id' : DnetId = record id { type = r.key.column } in
      let w1 = note w (Event.set_groups lgroups) in
      let w2 = note w1 (Event.transform r.key.filename) in
      let rest : WriteHelper → M (List LookupResult) =
        λ written. write_meta x c r lgroups written >> pure written.ret in
      let uploading : DnetId → M WriteHelper =
        λ i. rethrow_logged (upload x c r lgroups i content (is_chunked x c r content) helper) in
      let uploaded : upload x c r lgroups id' content (is_chunked x c r content) helper w2 ≡ (
        throw (runtime_error not_enough_copies),
        record w2 {
          trace =
              Event.remove_name r.key.filename
              ∷ Event.set_groups lgroups
              ∷ whole_write x c r id' content
              ∷ w2.trace;
        },
      ) =
        rw whole
          (upload_few_copies r lgroups id' content l results helper w2 answer parsed bad removes) in
      bind_ok (identify_key x c r.key) (λ i. uploading i >>= rest) w1 w2 id'
        (identify_named x c r.key id w1 named identified)
      ∙ bind_throw (uploading id') rest w2 _ _ (ap log_failure uploaded)

  -- A write of a key by name to groups that the call names, with no metabase: where enough nodes are
  -- alive, the content is not cut into chunks, and the node answers with results that are too few for
  -- the policy, and grants the removal, the write throws; the calls are those of one write to the
  -- first groups, as many as copies are asked for, and of the removal of the object by its name from
  -- all of them, and no groups are recorded.
  pub write_impl_few_copies :
      (r : Request) (g : ℤ) (gs : List ℤ) (states : ℤ) (id : DnetId) (l : Bytes)
      (results : List LookupResult) (w : World)
      → let content = content_of r.embeds r.content in
        let asked = before_write x c r w.trace in
        c.metabase_usage ≡ meta_none
        → r.groups ≡ g ∷ gs
        → r.key.by_id ≡ false
        → is_chunked x c r content ≡ false
        → x.number (
            Event.state_num
            ∷ Event.set_ioflags r.ioflags
            ∷ Event.set_cflags r.cflags
            ∷ Event.open_session
            ∷ w.trace)
          ≡ ok states
        → ltb_ℤ states c.state_num ≡ false
        → x.identify asked ≡ ok id
        → x.text (whole_write x c r (record id { type = r.key.column }) content ∷ asked) ≡ ok l
        → parse_lookup x.platform c.base_port c.eblob_style_path l ≡ ok results
        → upload_is_good
            (to_size c.success_copies_num)
            (to_size (int_of_pattern (copies x c r)))
            (length results)
          ≡ false
        → ((es : List Event) → x.done es ≡ ok tt)
        → write_impl x c r w
          ≡ (throw (runtime_error not_enough_copies), record w { trace = given_up r id w.trace })
  unfolding write_impl
  write_impl_few_copies r g gs states id l results w usage named by_name whole alive enough
        identified answer parsed bad removes =
      let lgroups = first_groups (copies x c r) r.groups in
      let helper = write_helper c.success_copies_num (int_of_pattern (copies x c r)) lgroups in
      let w0 : World = record w {
        trace =
            Event.state_num
            ∷ Event.set_ioflags r.ioflags
            ∷ Event.set_cflags r.cflags
            ∷ Event.open_session
            ∷ w.trace;
      } in
      rw (alive, enough)
        (bind_ok (choose_groups x c r (copies x c r))
            (λ chosen. rethrow_logged (
              write_to x c r chosen
                (write_helper c.success_copies_num (int_of_pattern (copies x c r)) chosen)))
            w0 w0 lgroups (choose_groups_named x c r (copies x c r) g gs w0 usage named)
          ∙ ap log_failure (
              write_to_few_copies r lgroups id l results helper w0 by_name whole identified answer
                parsed (fresh_is_good x c (int_of_pattern (copies x c r)) lgroups results false bad)
                removes))
