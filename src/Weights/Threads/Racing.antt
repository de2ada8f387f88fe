-- ===== src/Weights/Threads/Racing.antt =====
-- `map_[count]` under a shared lock (src/group_weights_cache.cpp).
use libelliptics_proxy.Base.{ℕ, ◌≡◌, ◌≢◌, false, none, ltb, arith}
use libelliptics_proxy.OrderedMap.{find}
use libelliptics_proxy.Weights.Threads.{
  outside, choosing, inserting, is_alone, Threads, go, takes_shared, misses, Reach, later,
}

-- A number of copies that the cache lacks, two threads that are outside, and none that replaces the
-- map: both may stand before the insertion of an entry at once, with nothing to keep the one from
-- writing the map while the other does.
pub Reach-race :
    {s : Threads} (i j count : ℕ)
    → Reach s
    → i ≢ j
    → s.place i ≡ outside
    → s.place j ≡ outside
    → ((k : ℕ) → is_alone (s.place k) ≡ false)
    → find ltb count s.map ≡ none
    → (t : Threads) × Reach t × (t.place i ≡ inserting count) × (t.place j ≡ inserting count)
Reach-race {s} i j count r apart at_i at_j none_alone missing =
    let s1 = go i (choosing count) s in
    let s2 = go i (inserting count) s1 in
    let s3 = go j (choosing count) s2 in
    let s4 = go j (inserting count) s3 in
    let r1 : Reach s1 = later r (takes_shared i count at_i none_alone) in
    let r2 : Reach s2 = later r1 (misses i count (ground arith) missing) in
    let r3 : Reach s3 =
      later r2
        (takes_shared j count (ground (arith, apart, at_j)) (λ k. ground (arith, none_alone k))) in
    let r4 : Reach s4 = later r3 (misses j count (ground arith) missing) in
    (s4, r4, ground (arith, apart), ground arith)
