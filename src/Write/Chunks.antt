-- ===== src/Write/Chunks.antt =====
-- The chunked upload of `write_impl` (src/proxy.cpp): the pieces that its calls write.
use mathlib.Core.List.{append_assoc}
use libelliptics_proxy.Base.{
  ℕ, suc, ◌+◌, ◌≤◌, ◌<◌, ◌≡◌, ap, ◌∙◌, ℤ, pos, true, false, List, [], ◌∷◌, ◌++◌, map, arith,
  to_size, word, Bytes, length, take, drop,
}
use libelliptics_proxy.Ids.{Key}
use libelliptics_proxy.Lookup.{LookupResult}
use libelliptics_proxy.Upload.{WriteHelper, update_lookup, fix_path, fix_size}
use libelliptics_proxy.Proxy.{External, Settings, World, Event, pure, bind_ok}
use libelliptics_proxy.Write.Pieces.{pieces, Covers-cons}
use libelliptics_proxy.Write.{chunk_event, chunk_loop, write_chunked}
use libelliptics_proxy.Write.Loop.{Uploads, chunk_loop-Uploads}
use libelliptics_proxy.Write.Rounds.{IsObliging, prepared_round}

module _ (x : External) (c : Settings) (k : ℕ) (chunk : to_size c.chunk_size ≡ k) where
  module _ (s rc : ℤ) (node : IsObliging x c s rc) where
    -- The results with the size of the whole in their paths.
    abbrev pub sized : Bytes → List LookupResult → List LookupResult
    sized content ret =
        map
          (λ (l : LookupResult). record l {
            path = fix_path (x.platform.print (pos (length content))) l.path;
          })
          ret

    -- The calls up to the second chunk, whose results are those of the upload.
    abbrev pub second_call : Key → Bytes → ℕ → List Event → List Event
    second_call key content offset es =
        let es1 =
          Event.write_prepare key (take k (drop offset content)) offset (length content) ∷ es in
        chunk_event x c key content (take k (drop (offset + k) content)) (offset + k)
        ∷ Event.set_groups (map (λ (l : LookupResult). l.group) (node.results es1))
        ∷ es1

    -- The first chunk in front of the loop.
    first_chunk :
        (key : Key) (content : Bytes) (offset : ℕ) (helper : WriteHelper) (ret : List LookupResult)
        (w : World)
        → helper.success_copies_num ≡ s
        → helper.replication_count ≡ rc
        → offset + k ≤ length content
        → length content < word
        → let first =
            Event.write_prepare key (take k (drop offset content)) offset (length content) in
          let es = first ∷ w.trace in
          let prepared = update_lookup helper (node.results es) false in
          let w1 = record w { trace = es } in
          Uploads x c k chunk s rc node content
            (offset + k)
            helper.desired_groups
            ret
            w1
            (chunk_loop x c (suc (length content)) key content offset true prepared w1)
          → Uploads x c k chunk s rc node content offset helper.desired_groups
              (sized content ret)
              w
              (write_chunked x c key content offset helper w)
    unfolding fix_size
    first_chunk key content offset helper ret w p q h small
          (h', es, ps, e, grown, covers, done, left) =
        let b = take k (drop offset content) in
        (
          fix_size h' (x.platform.print (pos (length content))),
          es,
          (offset, b) ∷ ps,
          prepared_round x c k chunk s rc node key content offset helper w p q h small
              ∙ bind_ok (chunk_loop x c (suc (length content)) key content offset true _)
                  (λ written. pure (fix_size written (x.platform.print (pos (length content)))))
                  (record w { trace = Event.write_prepare key b offset (length content) ∷ w.trace })
                  (record w { trace = es }) h' e,
          grown ∙ append_assoc (pieces w.trace) ((offset, b) ∷ []) ps,
          Covers-cons content offset k ps h covers,
          done,
          record {
            same_policy = left.same_policy;
            same_count = left.same_count;
            wanted = left.wanted;
            kept = ap (sized content) left.kept;
            reached = left.reached;
          },
        )

    -- Against a node that answers every write with results that can be parsed and are enough for
    -- the policy, a chunked upload that starts at least one chunk before the end of a content that
    -- with one chunk more stays below 2 ^ 64 succeeds: its calls write pieces that cover the
    -- content from the offset to the end with no gap and no overlap, the last of them commits the
    -- object, the length is fuel enough, and the helper that is left wants the same groups as before,
    -- under the same policy, and names the groups that the commit reached, and the results of the
    -- second call, with the size of the whole content in their paths.
    pub write_chunked-Uploads :
        (key : Key) (content : Bytes) (offset : ℕ) (helper : WriteHelper) (w : World)
        → helper.success_copies_num ≡ s
        → helper.replication_count ≡ rc
        → 0 < k
        → offset + k ≤ length content
        → length content + k < word
        → Uploads x c k chunk s rc node content offset helper.desired_groups
            (sized content (helper.ret ++ node.results (second_call key content offset w.trace)))
            w
            (write_chunked x c key content offset helper w)
    unfolding update_lookup
    write_chunked-Uploads key content offset helper w p q some_size h small =
        first_chunk key content offset helper _ w p q h (omega arith) (
          chunk_loop-Uploads x c k chunk s rc node (suc (length content)) key content offset true _
            _ p q some_size h small (omega arith))
