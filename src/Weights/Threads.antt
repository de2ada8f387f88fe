-- ===== src/Weights/Threads.antt =====
-- The threads of a proxy at the cache of src/group_weights_cache.cpp, one access to the lock or to the
-- map at a time. `boost::shared_mutex` is what boost documents: `unique_lock` waits until no thread has
-- the lock, `shared_lock` until no thread has it alone.
pub mod Locking
pub mod Whole
pub mod Racing
use libelliptics_proxy.Base.{
  ℕ, ◌≡◌, ◌≢◌, ◌∷◌, ◌++◌, Bool, true, false, List, [], Option, none, some, ◌==◌, ltb, is_empty,
  if◌then◌else◌,
}
use libelliptics_proxy.OrderedMap.{find, insert}
use libelliptics_proxy.Weights.{
  MetabaseGroupWeightsResponse, WeightedGroups, Cache, no_groups, collect, update, choose,
}

-- Where a thread is. `update` has built its map from the answer before it takes the lock, and `choose`
-- keeps a reference to the entry under a number of copies.
pub data Place : Type 0 where
  outside : Place
  built replacing : MetabaseGroupWeightsResponse → Place
  choosing inserting : ℕ → Place
  picking : ℕ → WeightedGroups → Place
  testing : Place

abbrev pub is_alone : Place → Bool
is_alone (replacing resp) = true
is_alone _ = false

abbrev pub has_lock : Place → Bool
has_lock outside = false
has_lock (built resp) = false
has_lock _ = true

pub record Threads : Type 0 where
  pub map : Cache
  pub place : ℕ → Place

abbrev pub put : ℕ → Place → (ℕ → Place) → ℕ → Place
put i p place j = if j == i then p else place j

abbrev pub go : ℕ → Place → Threads → Threads
go i p s = record s { place = put i p s.place }

-- The swap of `update`.
abbrev pub replace : Cache → Cache → Cache
replace local_map map = elim (is_empty local_map) [ true ↦ map | false ↦ local_map ]

-- A step of one thread. `map_[count]` inserts under a shared lock: what it does while another thread
-- has the lock too is undefined, and no step of this relation.
pub data Step (s : Threads) : Threads → Type 0 where
  builds :
      (i : ℕ) (resp : MetabaseGroupWeightsResponse)
      → s.place i ≡ outside
      → Step s (go i (built resp) s)
  takes_alone :
      (i : ℕ) (resp : MetabaseGroupWeightsResponse)
      → s.place i ≡ built resp
      → ((j : ℕ) → has_lock (s.place j) ≡ false)
      → Step s (go i (replacing resp) s)
  replaces :
      (i : ℕ) (resp : MetabaseGroupWeightsResponse)
      → s.place i ≡ replacing resp
      → Step s
          (record { map = replace (collect [] resp.info) s.map; place = put i outside s.place })
  takes_shared :
      (i count : ℕ)
      → s.place i ≡ outside
      → ((j : ℕ) → is_alone (s.place j) ≡ false)
      → Step s (go i (choosing count) s)
  finds :
      (i count : ℕ) (w : WeightedGroups)
      → s.place i ≡ choosing count
      → find ltb count s.map ≡ some w
      → Step s (go i (picking count w) s)
  misses :
      (i count : ℕ)
      → s.place i ≡ choosing count
      → find ltb count s.map ≡ none
      → Step s (go i (inserting count) s)
  inserts :
      (i count : ℕ) (w : WeightedGroups)
      → s.place i ≡ inserting count
      → ((j : ℕ) → j ≢ i → has_lock (s.place j) ≡ false)
      → find ltb count (insert ltb count no_groups s.map) ≡ some w
      → Step s (record {
        map = insert ltb count no_groups s.map;
        place = put i (picking count w) s.place;
      })
  picks : (i count : ℕ) (w : WeightedGroups) → s.place i ≡ picking count w → Step s (go i outside s)
  tests :
      (i : ℕ)
      → s.place i ≡ outside
      → ((j : ℕ) → is_alone (s.place j) ≡ false)
      → Step s (go i testing s)
  tested : (i : ℕ) → s.place i ≡ testing → Step s (go i outside s)

pub data Reach : Threads → Type 0 where
  start : Reach (record { map = []; place = λ i. outside })
  later : {s t : Threads} → Reach s → Step s t → Reach t

-- Calls that change the map as a whole.
pub data Call : Type 0 where
  updates : MetabaseGroupWeightsResponse → Call
  chooses : ℕ → Call

-- The map after calls one after the other, the newest first. The point that a choice draws has no say
-- in it.
abbrev pub replay : List Call → Cache
replay [] = []
replay (updates resp ∷ calls) = (update (replay calls) resp).1
replay (chooses count ∷ calls) = (choose (λ total. total) count (replay calls)).1

-- The call that a step brings to effect: an update where it swaps the maps, a choice where it has the
-- entry.
abbrev pub effect : {s t : Threads} → Step s t → List Call
effect (replaces i resp e) = updates resp ∷ []
effect (finds i count w e found) = chooses count ∷ []
effect (inserts i count w e quiet found) = chooses count ∷ []
effect _ = []

abbrev pub calls : {s : Threads} → Reach s → List Call
calls start = []
calls (later r st) = effect st ++ calls r
