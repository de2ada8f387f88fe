-- ===== src/Write/Rounds.antt =====
-- The rounds of the chunked upload of `write_impl` (src/proxy.cpp), against a node that answers.
use libelliptics_proxy.Base.{
  ℕ, suc, ◌+◌, ◌%◌, ◌≤◌, ◌<◌, ◌≡◌, refl, ℤ, pos, Bool, true, false, List, ◌∷◌, arith, ltb, leb,
  to_size, word, Bytes, length, take, drop, le→ltb_false, le→leb, length-map, if◌then◌else◌,
}
use libelliptics_proxy.Result.{ok}
use libelliptics_proxy.Ids.{Key}
use libelliptics_proxy.Lookup.{LookupResult, parse_lookup}
use libelliptics_proxy.Upload.{WriteHelper, upload_is_good, helper_is_good, update_lookup, fix_size}
use libelliptics_proxy.Proxy.{External, Settings, World, Event, pure, ◌>>=◌}
use libelliptics_proxy.Text.{substr}
use libelliptics_proxy.Write.{parse, chunk_event, chunk_loop, write_chunked}

-- A node that answers every write with results that can be parsed, and enough of them.
pub record IsObliging (x : External) (c : Settings) (success_copies_num replication_count : ℤ)
    : Type 0 where
  pub answer : List Event → Bytes
  pub results : List Event → List LookupResult
  pub answers : (es : List Event) → x.text es ≡ ok (answer es)
  pub parses :
      (es : List Event)
      → parse_lookup x.platform c.base_port c.eblob_style_path (answer es) ≡ ok (results es)
  pub good :
      (es : List Event)
      → upload_is_good
          (to_size success_copies_num)
          (to_size replication_count)
          (length (results es))
        ≡ true

module _ (x : External) (c : Settings) (k : ℕ) (chunk : to_size c.chunk_size ≡ k) where
  -- The helper that a round leaves, and the calls that it adds.
  abbrev pub after_round : Key → Bytes → ℕ → WriteHelper → List Event → List Event
  after_round key content offset helper es =
      chunk_event x c key content (take k (drop (offset + k) content)) (offset + k)
      ∷ Event.set_groups helper.upload_groups
      ∷ es

  module _ (s rc : ℤ) (node : IsObliging x c s rc) where
    pub is_good_after :
        (helper : WriteHelper) (es : List Event) (update_ret : Bool)
        → helper.success_copies_num ≡ s
        → helper.replication_count ≡ rc
        → helper_is_good (update_lookup helper (node.results es) update_ret) ≡ true
    unfolding helper_is_good update_lookup
    is_good_after helper es update_ret p q =
        rw (p, q, length-map (λ (l : LookupResult). l.group) (node.results es)) (node.good es)

    pub chunk_round :
        (fuel : ℕ) (key : Key) (content : Bytes) (offset : ℕ) (first : Bool) (helper : WriteHelper)
        (w : World)
        → helper.success_copies_num ≡ s
        → helper.replication_count ≡ rc
        → offset + k ≤ length content
        → length content + k < word
        → let es = after_round key content offset helper w.trace in
          let updated = update_lookup helper (node.results es) first in
          chunk_loop x c (suc fuel) key content offset first helper w
          ≡ (if ltb (offset + k + k) (length content)
                then chunk_loop x c fuel key content (offset + k) false updated
                else pure updated)
              (record w { trace = es })
    unfolding chunk_loop substr parse
    chunk_round fuel key content offset first helper w p q h small =
        let es = after_round key content offset helper w.trace in
        let next : (offset + k) % word ≡ offset + k = omega arith in
        let after : (offset + k + k) % word ≡ offset + k + k = omega arith in
        rw
          (
            chunk,
            next,
            after,
            le→ltb_false (length content) (offset + k) h,
            node.answers es,
            node.parses es,
            is_good_after helper es first p q,
          )
          refl

    pub commit_event :
        (key : Key) (content b : Bytes) (offset : ℕ)
        → length content ≤ offset + k
        → offset + k < word
        → chunk_event x c key content b offset ≡ Event.write_commit key b offset 0
    unfolding chunk_event
    commit_event key content b offset h small =
        let whole : (offset + k) % word ≡ offset + k = omega arith in
        rw (chunk, whole, le→leb (length content) (offset + k) h)

    pub plain_event :
        (key : Key) (content b : Bytes) (offset : ℕ)
        → offset + k < length content
        → length content < word
        → chunk_event x c key content b offset ≡ Event.write_plain key b offset
    unfolding chunk_event
    plain_event key content b offset h small =
        let whole : (offset + k) % word ≡ offset + k = omega arith in
        let short : leb (length content) (offset + k) ≡ false = ground arith in
        rw (chunk, whole, short)

    pub prepared_round :
        (key : Key) (content : Bytes) (offset : ℕ) (helper : WriteHelper) (w : World)
        → helper.success_copies_num ≡ s
        → helper.replication_count ≡ rc
        → offset + k ≤ length content
        → length content < word
        → let first =
            Event.write_prepare key (take k (drop offset content)) offset (length content) in
          let es = first ∷ w.trace in
          let prepared = update_lookup helper (node.results es) false in
          write_chunked x c key content offset helper w
          ≡ (chunk_loop x c (suc (length content)) key content offset true prepared >>= λ written.
                pure (fix_size written (x.platform.print (pos (length content)))))
              (record w { trace = es })
    unfolding write_chunked substr parse
    prepared_round key content offset helper w p q h small =
        let first =
          Event.write_prepare key (take k (drop offset content)) offset (length content) in
        let es = first ∷ w.trace in
        let inside : offset ≤ length content = omega arith in
        rw
          (
            chunk,
            le→ltb_false (length content) offset inside,
            node.answers es,
            node.parses es,
            is_good_after helper es false p q,
          )
          refl
