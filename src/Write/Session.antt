-- ===== src/Write/Session.antt =====
-- A chunked write from end to end: `write_impl` (src/proxy.cpp) where the content is cut into chunks
-- and the metabase takes no part.
use libelliptics_proxy.Base.{
  ℕ, ◌≡◌, refl, ap, ◌∙◌, ℤ, true, false, List, ◌∷◌, ◌++◌, Bytes, to_size, int_of_pattern, ltb_ℤ,
}
use libelliptics_proxy.Result.{Result, ok}
use libelliptics_proxy.Ids.{DnetId}
use libelliptics_proxy.Lookup.{LookupResult}
use libelliptics_proxy.Upload.{WriteHelper, write_helper}
use libelliptics_proxy.Groups.{has_meta_info}
use libelliptics_proxy.Proxy.{
  External, Settings, World, Event, M, pure, meta_none, bind_ok, rethrow_logged, log_failure, note,
  ◌>>=◌, ◌>>◌,
}
use libelliptics_proxy.Write.{
  Request, content_of, first_groups, is_chunked, identify_key, choose_groups, upload, write_meta,
  write_to, copies, write_impl,
}
use libelliptics_proxy.Write.Rounds.{IsObliging}
use libelliptics_proxy.Write.Uploaded.{results_of, IsUploaded, IsCut, IsBounded, upload_chunked}
use libelliptics_proxy.Write.Whole.{
  choose_groups_named, identify_named, write_meta_alone, before_write,
}

module _ (x : External) (c : Settings) (k : ℕ) (chunk : to_size c.chunk_size ≡ k) (s rc : ℤ)
    (node : IsObliging x c s rc) where
  -- A chunked write that has come to its end behind the calls `asked`: the upload, and the record of
  -- the groups that it reached.
  abbrev pub Achieves :
      Request
      → Bytes
      → WriteHelper
      → List Event
      → World
      → Result (List LookupResult) × World
      → Type 0
  Achieves r content helper asked w res =
      (es removed : List Event) × (ps : List (ℕ × Bytes)) × (gs : List ℤ) × (res ≡ (
        ok (results_of x c k chunk s rc node r content helper asked),
        record w {
          trace =
              Event.set_cflags r.ioflags
              ∷ Event.write_metadata r.key r.key.filename gs
              ∷ Event.set_cflags 0
              ∷ (removed ++ es);
        },
      ))
      × IsUploaded x c k chunk s rc node r content helper.desired_groups asked es removed ps gs

  write_to_chunked :
      (r : Request) (lgroups : List ℤ) (id : DnetId) (helper : WriteHelper) (w : World)
      → let content = content_of r.embeds r.content in
        let asked = Event.transform r.key.filename ∷ Event.set_groups lgroups ∷ w.trace in
        r.key.by_id ≡ false
        → is_chunked x c r content ≡ true
        → has_meta_info x c ≡ false
        → x.identify asked ≡ ok id
        → helper.success_copies_num ≡ s
        → helper.replication_count ≡ rc
        → IsCut x c k chunk s rc node r.offset content
        → IsBounded x c k chunk s rc node helper.desired_groups
        → ((ds : List Event) → x.done ds ≡ ok tt)
        → Achieves r content helper asked w (write_to x c r lgroups helper w)
  unfolding write_to
  write_to_chunked r lgroups id helper w named chunked off identified p q cut bounded done =
      let content = content_of r.embeds r.content in
      let id' : DnetId = record id { type = r.key.column } in
      let w1 = note w (Event.set_groups lgroups) in
      let w2 = note w1 (Event.transform r.key.filename) in
      let (h, es, removed, ps, run, kept, uploaded) =
        upload_chunked x c k chunk s rc node r lgroups id' content helper w2 p q cut bounded done in
      let w3 : World = record w { trace = removed ++ es } in
      let rest : WriteHelper → M (List LookupResult) =
        λ written. write_meta x c r lgroups written >> pure written.ret in
      let uploading : DnetId → M WriteHelper =
        λ i. rethrow_logged (upload x c r lgroups i content (is_chunked x c r content) helper) in
      let done_so : uploading id' w2 ≡ (ok h, w3) = rw chunked (ap log_failure run) in
      (
        es,
        removed,
        ps,
        h.upload_groups,
        bind_ok (identify_key x c r.key) (λ i. uploading i >>= rest) w1 w2 id'
              (identify_named x c r.key id w1 named identified)
            ∙ bind_ok (uploading id') rest w2 w3 h done_so
            ∙ write_meta_alone x c r lgroups h w3 off done
            ∙ rw kept refl,
        uploaded,
      )

module _ (x : External) (c : Settings) (r : Request) (k : ℕ) (chunk : to_size c.chunk_size ≡ k)
    (node : IsObliging x c c.success_copies_num (int_of_pattern (copies x c r))) where
  -- The helper of the write: the first groups of the request, as many as copies are asked for.
  abbrev pub helper_of : WriteHelper
  helper_of =
      write_helper c.success_copies_num (int_of_pattern (copies x c r))
        (first_groups (copies x c r) r.groups)

  -- A write of a key by name to groups that the call names, with no metabase, whose content is cut
  -- into chunks, from an offset at least one chunk before its end, with no offset that wraps around:
  -- where enough nodes are alive, and the node answers every write with results that are enough for the
  -- policy and name no more groups than were wanted, of which there are no more than a vector holds, and
  -- grants the calls behind, the write succeeds, with the results of its second call under paths that
  -- end in the size of the whole content. Its pieces cover the content from the offset to the end with
  -- no gap and no overlap, and the last commits the object; where the commit reached fewer groups than
  -- were wanted, the object is removed from those that are wanted more often than they were reached;
  -- and the groups that the commit reached are recorded.
  pub write_impl_chunked :
      (g : ℤ) (gs : List ℤ) (states : ℤ) (id : DnetId) (w : World)
      → let content = content_of r.embeds r.content in
        let asked = before_write x c r w.trace in
        c.metabase_usage ≡ meta_none
        → has_meta_info x c ≡ false
        → r.groups ≡ g ∷ gs
        → r.key.by_id ≡ false
        → is_chunked x c r content ≡ true
        → x.number (
            Event.state_num
            ∷ Event.set_ioflags r.ioflags
            ∷ Event.set_cflags r.cflags
            ∷ Event.open_session
            ∷ w.trace)
          ≡ ok states
        → ltb_ℤ states c.state_num ≡ false
        → x.identify asked ≡ ok id
        → IsCut x c k chunk c.success_copies_num
            (int_of_pattern (copies x c r))
            node
            r.offset
            content
        → IsBounded x c k chunk c.success_copies_num
            (int_of_pattern (copies x c r))
            node
            (first_groups (copies x c r) r.groups)
        → ((ds : List Event) → x.done ds ≡ ok tt)
        → Achieves x c k chunk c.success_copies_num
            (int_of_pattern (copies x c r))
            node
            r
            content
            helper_of
            asked
            w
            (write_impl x c r w)
  unfolding write_impl write_helper
  write_impl_chunked g gs states id w usage off named by_name chunked alive enough identified cut
        bounded done =
      let s = c.success_copies_num in
      let rc = int_of_pattern (copies x c r) in
      let lgroups = first_groups (copies x c r) r.groups in
      let w0 : World = record w {
        trace =
            Event.state_num
            ∷ Event.set_ioflags r.ioflags
            ∷ Event.set_cflags r.cflags
            ∷ Event.open_session
            ∷ w.trace;
      } in
      let (es, removed, ps, reached, run, uploaded) =
        write_to_chunked x c k chunk s rc node r lgroups id helper_of w0 by_name chunked off
          identified refl refl cut bounded done in
      (
        es,
        removed,
        ps,
        reached,
        rw (alive, enough)
            (bind_ok (choose_groups x c r (copies x c r))
                (λ chosen. rethrow_logged (
                  write_to x c r chosen
                    (write_helper c.success_copies_num (int_of_pattern (copies x c r)) chosen)))
                w0 w0 lgroups (choose_groups_named x c r (copies x c r) g gs w0 usage named)
              ∙ ap log_failure run),
        uploaded,
      )
