-- ===== src/Weights.antt =====
-- src/group_weights_cache.cpp: the groups that the metabase offers, by how many copies they hold,
-- and the weighted random choice among them. A call is one step here, and
-- several in Threads.
pub mod Choice
pub mod Caching
pub mod Threads
use libelliptics_proxy.Base.{
  ℕ, ◌+◌, ◌%◌, ℤ, Bool, true, false, not, List, [], ◌∷◌, Option, none, some, ltb, word, is_empty,
}
use libelliptics_proxy.Result.{Result, ok, throw, runtime_error, nothing_found}
use libelliptics_proxy.OrderedMap.{Map, assign, lower_bound, at_or, insert, find}

-- `MetabaseGroupWeightsResponse` and its parts.
pub record GroupWithWeight : Type 0 where
  pub group_ids : List ℤ
  pub weight : ℕ

pub record SizedGroups : Type 0 where
  pub size : ℕ
  pub weighted_groups : List GroupWithWeight

pub record MetabaseGroupWeightsResponse : Type 0 where
  pub info : List SizedGroups

-- The groups under the running total of their weights.
pub record WeightedGroups : Type 0 where
  pub total_weight : ℕ
  pub map : Map ℕ (List ℤ)

abbrev pub no_groups : WeightedGroups
no_groups = record { total_weight = 0; map = [] }

unfoldable pub add : WeightedGroups → List ℤ → ℕ → WeightedGroups
add w group weight =
    let total = (w.total_weight + weight) % word in
    record { total_weight = total; map = assign ltb total group w.map }

-- `draw total` is `uint64_t(double(random()) / RAND_MAX * total)`.
unfoldable pub get : (ℕ → ℕ) → WeightedGroups → Result (List ℤ)
get draw w = elim (lower_bound ltb (draw w.total_weight) w.map) [
  | none ↦ throw (runtime_error nothing_found)
  | some (_, group) ↦ ok group
]

abbrev pub Cache : Type 0
Cache = Map ℕ WeightedGroups

-- The inner loop of `update`.
unfoldable pub add_all : WeightedGroups → List GroupWithWeight → WeightedGroups
add_all w [] = w
add_all w (g ∷ gs) = add_all (add w g.group_ids g.weight) gs

-- The outer loop of `update`.
unfoldable pub collect : Cache → List SizedGroups → Cache
collect m [] = m
collect m (s ∷ ss) = collect (assign ltb s.size (add_all no_groups s.weighted_groups) m) ss

-- An answer with no groups leaves the cache as it was.
unfoldable pub update : Cache → MetabaseGroupWeightsResponse → Bool × Cache
update cache resp =
    let local_map = collect [] resp.info in
    elim (is_empty local_map) [ true ↦ (false, cache) | false ↦ (true, local_map) ]

-- `map_[count]` makes an entry where there was none.
unfoldable pub choose : (ℕ → ℕ) → ℕ → Cache → Result (List ℤ) × Cache
choose draw count cache =
    (get draw (at_or ltb no_groups count cache), insert ltb count no_groups cache)

unfoldable pub initialized : Cache → Bool
initialized cache = not (is_empty cache)
