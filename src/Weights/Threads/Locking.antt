-- ===== src/Weights/Threads/Locking.antt =====
-- What the lock of src/group_weights_cache.cpp keeps up among threads.
use libelliptics_proxy.Base.{ℕ, ◌≡◌, ◌≢◌, refl, ap, true, false, [], ◌∷◌, some, ltb, arith}
use libelliptics_proxy.OrderedMap.{Map, find, insert}
use libelliptics_proxy.Weights.{WeightedGroups, Cache, no_groups, collect}
use libelliptics_proxy.Weights.Threads.{
  Place, outside, built, choosing, inserting, picking, testing, is_alone, has_lock, Threads, go,
  replace, Step, builds, takes_alone, replaces, takes_shared, finds, misses, inserts, picks, tests,
  tested, Reach, start, later,
}

find-insert_found {ℓ} :
    {V : Type ℓ} (j k : ℕ) (v w : V) (m : Map ℕ V)
    → find ltb j m ≡ some w
    → find ltb j (insert ltb k v m) ≡ some w
unfolding find insert
find-insert_found j k v w [] h = absurd cc
find-insert_found j k v w ((i, u) ∷ m) h = ground (arith, find-insert_found j k v w m)

record Sound (s : Threads) : Type 0 where
  pub alone : (i j : ℕ) → is_alone (s.place i) ≡ true → has_lock (s.place j) ≡ true → i ≡ j
  pub valid :
      (i count : ℕ) (w : WeightedGroups)
      → s.place i ≡ picking count w
      → find ltb count s.map ≡ some w

start-Sound : Sound (record { map = []; place = λ i. outside })
start-Sound = record { alone = λ i j h k. ground arith; valid = λ i count w h. ground arith }

-- A thread that goes to a place where it does not have the lock alone.
go-Sound :
    (i : ℕ) (p : Place) (s : Threads)
    → Sound s
    → is_alone p ≡ false
    → ((j : ℕ) → has_lock p ≡ true → is_alone (s.place j) ≡ true → j ≡ i)
    → ((count : ℕ) (w : WeightedGroups) → p ≡ picking count w → find ltb count s.map ≡ some w)
    → Sound (go i p s)
go-Sound i p s h a b c = record {
  alone = λ j k e f. ground (arith, h.alone j k, h.alone j i, a, b j);
  valid = λ j count w e. ground (arith, h.valid j count w, c count w);
}

-- Another map, in which every entry that a thread refers to is as it was.
change-Sound :
    (m : Cache) (s : Threads)
    → Sound s
    → ((i count : ℕ) (w : WeightedGroups) → s.place i ≡ picking count w → find ltb count m ≡ some w)
    → Sound (record s { map = m })
change-Sound m s h keeps = record { alone = h.alone; valid = keeps }

-- Where a thread has the lock alone, no other one refers to an entry.
nobody_picks :
    (i : ℕ) (s : Threads)
    → Sound s
    → is_alone (s.place i) ≡ true
    → (j count : ℕ) (w : WeightedGroups) → s.place j ≢ picking count w
nobody_picks i s h a j count w e = ground (arith, h.alone i j, a, e)

Step-Sound : {s t : Threads} → Step s t → Sound s → Sound t
Step-Sound {s} (builds i resp e) h = go-Sound i (built resp) s h refl (λ j. cc) (λ count w. cc)
Step-Sound {s} (takes_alone i resp e free) h = record {
  alone = λ j k x y. ground (arith, free j, free k, x, y);
  valid = λ j count w x. ground (arith, h.valid j count w, x);
}
Step-Sound {s} (replaces i resp e) h =
    go-Sound i outside (record s { map = replace (collect [] resp.info) s.map })
      (change-Sound (replace (collect [] resp.info) s.map) s h
        (λ j count w k. absurd (nobody_picks i s h (ap is_alone e) j count w k)))
      refl (λ j. cc) (λ count w. cc)
Step-Sound {s} (takes_shared i count e none_alone) h =
    go-Sound i (choosing count) s h refl (λ j. ground (arith, none_alone j)) (λ count w. cc)
Step-Sound {s} (finds i count w e found) h =
    go-Sound i (picking count w) s h refl (λ j l a. h.alone j i a (ap has_lock e))
      (λ d v k. ground (arith, found, k))
Step-Sound {s} (misses i count e missed) h =
    go-Sound i (inserting count) s h refl (λ j l a. h.alone j i a (ap has_lock e)) (λ d v. cc)
Step-Sound {s} (inserts i count w e quiet found) h =
    go-Sound i (picking count w) (record s { map = insert ltb count no_groups s.map })
      (change-Sound (insert ltb count no_groups s.map) s h
        (λ j d v k. find-insert_found d count no_groups v s.map (h.valid j d v k)))
      refl (λ j l a. h.alone j i a (ap has_lock e)) (λ d v k. ground (arith, found, k))
Step-Sound {s} (picks i count w e) h = go-Sound i outside s h refl (λ j. cc) (λ count w. cc)
Step-Sound {s} (tests i e none_alone) h =
    go-Sound i testing s h refl (λ j. ground (arith, none_alone j)) (λ count w. cc)
Step-Sound {s} (tested i e) h = go-Sound i outside s h refl (λ j. cc) (λ count w. cc)

Reach-Sound : {s : Threads} → Reach s → Sound s
Reach-Sound start = start-Sound
Reach-Sound (later r st) = Step-Sound st (Reach-Sound r)

-- However the threads' steps follow one another, as long as no two of them race for an insertion:
-- while one has the lock alone to replace the map, no other one has it, and the entry that `choose`
-- refers to is in the map, with the weights with which it was found, until the lock is given back.
pub Reach-valid :
    {s : Threads}
    → Reach s
    → ((i j : ℕ) → is_alone (s.place i) ≡ true → has_lock (s.place j) ≡ true → i ≡ j)
      × ((i count : ℕ) (w : WeightedGroups)
          → s.place i ≡ picking count w
          → find ltb count s.map ≡ some w)
Reach-valid r = let h = Reach-Sound r in (h.alone, h.valid)
