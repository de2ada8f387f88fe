-- ===== src/Write/Loop.antt =====
-- The loop over the chunks behind the first in `write_impl` (src/proxy.cpp, lines 552-563).
use mathlib.Core.List.{append_assoc, append-nil}
use libelliptics_proxy.Base.{
  ℕ, zero, suc, ◌+◌, ◌≤◌, ◌<◌, ◌≡◌, refl, ◌∙◌, ℤ, Bool, true, false, List, [], ◌∷◌, ◌++◌, map,
  arith, ltb, to_size, word, Bytes, length, take, drop, Bool-cases, inl, inr, ltb→lt, ltb_false→le,
  length-map, if◌then◌else◌,
}
use libelliptics_proxy.Result.{Result, ok}
use libelliptics_proxy.Ids.{Key}
use libelliptics_proxy.Lookup.{LookupResult}
use libelliptics_proxy.Upload.{WriteHelper, helper_is_good, update_lookup}
use libelliptics_proxy.Proxy.{External, Settings, World, Event}
use libelliptics_proxy.Write.Pieces.{pieces, Covers, is_committed, Covers-cons, Covers-last}
use libelliptics_proxy.Write.{chunk_loop}
use libelliptics_proxy.Write.Rounds.{
  IsObliging, after_round, chunk_round, commit_event, plain_event,
}

module _ (x : External) (c : Settings) (k : ℕ) (chunk : to_size c.chunk_size ≡ k) where
  module _ (s rc : ℤ) (node : IsObliging x c s rc) where
    -- A helper for the wanted groups, whose policy nobody has touched, with its results, behind a
    -- call.
    pub record Reaches (desired : List ℤ) (ret : List LookupResult) (h : WriteHelper)
        (es : List Event) : Type 0 where
      pub same_policy : h.success_copies_num ≡ s
      pub same_count : h.replication_count ≡ rc
      pub wanted : h.desired_groups ≡ desired
      pub kept : h.ret ≡ ret
      pub reached : h.upload_groups ≡ map (λ (l : LookupResult). l.group) (node.results es)

    -- What a run of the upload has achieved: a helper that stands for the groups the last call
    -- reached, and pieces that cover the content from `from` on behind those of before, the newest
    -- call being the commit.
    abbrev pub Uploads :
        Bytes → ℕ → List ℤ → List LookupResult → World → Result WriteHelper × World → Type 0
    Uploads content from desired ret w r =
        (h : WriteHelper) × (es : List Event) × (ps : List (ℕ × Bytes)) × (r
          ≡ (ok h, record w { trace = es }))
        × (pieces es ≡ pieces w.trace ++ ps)
        × Covers content from ps
        × (is_committed es ≡ true)
        × Reaches desired ret h es

    pub Reaches-is_good :
        (desired : List ℤ) (ret : List LookupResult) (h : WriteHelper) (es : List Event)
        → Reaches desired ret h es
        → helper_is_good h ≡ true
    unfolding helper_is_good
    Reaches-is_good desired ret h es r =
        rw
          (
            r.same_policy,
            r.same_count,
            r.reached,
            length-map (λ (l : LookupResult). l.group) (node.results es),
          )
          (node.good es)

    -- The results behind one round.
    abbrev pub after_ret : Key → Bytes → ℕ → Bool → WriteHelper → World → List LookupResult
    after_ret key content offset first helper w =
        if first
        then helper.ret ++ node.results (after_round x c k chunk key content offset helper w.trace)
        else helper.ret

    last_chunk :
        (fuel : ℕ) (key : Key) (content : Bytes) (offset : ℕ) (first : Bool) (helper : WriteHelper)
        (w : World)
        → helper.success_copies_num ≡ s
        → helper.replication_count ≡ rc
        → offset + k ≤ length content
        → length content + k < word
        → ltb (offset + k + k) (length content) ≡ false
        → Uploads content
            (offset + k)
            helper.desired_groups
            (after_ret key content offset first helper w)
            w
            (chunk_loop x c (suc fuel) key content offset first helper w)
    unfolding update_lookup
    last_chunk fuel key content offset first helper w p q h small last =
        let es = after_round x c k chunk key content offset helper w.trace in
        let reached = ltb_false→le (offset + k + k) (length content) last in
        let b = take k (drop (offset + k) content) in
        let commit =
          commit_event x c k chunk s rc node key content b (offset + k) reached (omega arith) in
        (
          update_lookup helper (node.results es) first,
          es,
          (offset + k, b) ∷ [],
          chunk_round x c k chunk s rc node fuel key content offset first helper w p q h small
              ∙ rw last refl,
          rw (commit, append-nil),
          Covers-last content (offset + k) k h reached,
          rw commit,
          record { same_policy = p; same_count = q; wanted = refl; kept = refl; reached = refl },
        )

    -- A plain chunk in front of a run that uploads the rest.
    next_chunk :
        (key : Key) (content : Bytes) (offset : ℕ) (helper : WriteHelper) (desired : List ℤ)
        (ret : List LookupResult) (w : World) (r : Result WriteHelper × World)
        → offset + k + k < length content
        → length content < word
        → Uploads content
            (offset + k + k)
            desired
            ret
            (record w { trace = after_round x c k chunk key content offset helper w.trace })
            r
        → Uploads content (offset + k) desired ret w r
    next_chunk key content offset helper desired ret w r h small
          (h', es, ps, e, grown, covers, done, left) =
        let b = take k (drop (offset + k) content) in
        let plain = plain_event x c k chunk s rc node key content b (offset + k) h small in
        (
          h',
          es,
          (offset + k, b) ∷ ps,
          e,
          grown ∙ rw (plain, append-nil) (append_assoc (pieces w.trace) ((offset + k, b) ∷ []) ps),
          Covers-cons content (offset + k) k ps (omega arith) covers,
          done,
          left,
        )

    pub chunk_loop-Uploads :
        (fuel : ℕ) (key : Key) (content : Bytes) (offset : ℕ) (first : Bool) (helper : WriteHelper)
        (w : World)
        → helper.success_copies_num ≡ s
        → helper.replication_count ≡ rc
        → 0 < k
        → offset + k ≤ length content
        → length content + k < word
        → length content < offset + k + fuel
        → Uploads content
            (offset + k)
            helper.desired_groups
            (after_ret key content offset first helper w)
            w
            (chunk_loop x c fuel key content offset first helper w)
    unfolding update_lookup
    chunk_loop-Uploads zero key content offset first helper w p q some_size h small enough =
        absurd (omega arith)
    chunk_loop-Uploads (suc fuel) key content offset first helper w p q some_size h small enough =
        elim (Bool-cases (ltb (offset + k + k) (length content))) [
          | inl more ↦
              let es = after_round x c k chunk key content offset helper w.trace in
              let updated = update_lookup helper (node.results es) first in
              let further = ltb→lt (offset + k + k) (length content) more in
              let rest =
                chunk_loop-Uploads fuel key content (offset + k) false updated
                  (record w { trace = es }) p q some_size (omega arith) small (omega arith) in
              rw
                (
                  chunk_round x c k chunk s rc node fuel key content offset first helper w p q h
                      small,
                  more,
                )
                (next_chunk key content offset helper helper.desired_groups updated.ret w _ further
                  (omega arith) rest)
          | inr last ↦ last_chunk fuel key content offset first helper w p q h small last
        ]
