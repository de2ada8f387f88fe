-- ===== src/Msgpack/SizedWeights.antt =====
-- The answer with the weights of the groups (src/proxy.cpp, lines 190-207), and a choice from it.
use mathlib.Core.List.{append_assoc, append-nil}
use libelliptics_proxy.Base.{
  ℕ, ◌+◌, ◌%◌, ◌≡◌, ◌≢◌, sym, ap, ◌∙◌, ℤ, true, List, [], ◌∷◌, ◌++◌, some, word, All,
}
use libelliptics_proxy.Result.{Result, ok}
use libelliptics_proxy.Weights.{SizedGroups, MetabaseGroupWeightsResponse}
use libelliptics_proxy.Weights.Choice.{weight_sum, pick}
use libelliptics_proxy.Weights.Caching.{offered, IsBalancedSize}
use libelliptics_proxy.Metabase.{get_metabalancer_groups}
use libelliptics_proxy.Metabase.Balancer.{get_metabalancer_groups_fresh}
use libelliptics_proxy.Proxy.{External, Settings, Event}
use libelliptics_proxy.Msgpack.{Converter, convert_sizes, convert_weights, dealt}

module _ {Object : Type 0} (m : Converter Object) where
  -- A pair whose key is a size and whose value is groups with their weights.
  pub record Offers (kv : Object × Object) (s : SizedGroups) : Type 0 where
    pub sized : m.to_number kv.0 ≡ ok s.size
    pub grouped : m.to_groups kv.1 ≡ ok s.weighted_groups

  abbrev pub OffersAll : List (Object × Object) → List SizedGroups → Type 0
  OffersAll [] [] = Unit {0}
  OffersAll [] (s ∷ ss) = ⊥
  OffersAll (kv ∷ kvs) [] = ⊥
  OffersAll (kv ∷ kvs) (s ∷ ss) = Offers kv s × OffersAll kvs ss

  sizes_lem :
      (kvs : List (Object × Object)) (ss : List SizedGroups) (v : MetabaseGroupWeightsResponse)
      → OffersAll kvs ss
      → convert_sizes m kvs v ≡ ok (record { info = v.info ++ ss })
  unfolding convert_sizes
  sizes_lem [] [] v h = ap (λ l. ok (record { info = l })) (sym (append-nil v.info))
  sizes_lem [] (s ∷ ss) v h = absurd h
  sizes_lem (kv ∷ kvs) [] v h = absurd h
  sizes_lem (kv ∷ kvs) (s ∷ ss) v h =
      rw (h.0.sized, h.0.grouped)
        (sizes_lem kvs ss (record { info = v.info ++ (s ∷ []) }) h.1
          ∙ ap (λ l. ok (record { info = l })) (append_assoc v.info (s ∷ []) ss))

  -- A message that is a map from sizes to groups gives these, in their order, behind what the response
  -- holds already.
  pub convert_weights_lem :
      (o : Object) (kvs : List (Object × Object)) (ss : List SizedGroups)
      (v : MetabaseGroupWeightsResponse)
      → m.as_map o ≡ some kvs
      → OffersAll kvs ss
      → convert_weights m o v ≡ ok (record { info = v.info ++ ss })
  unfolding convert_weights
  convert_weights_lem o kvs ss v map offers = rw (convert_weights, map) (sizes_lem kvs ss v offers)

  -- A proxy with a dealer and an empty cache asks for a message; from one that maps sizes to groups,
  -- is not empty, and whose weights are positive with sums that fit 64 bits, it chooses, for a number
  -- of copies, the group of that size in whose share of the weights the random point lies.
  pub get_metabalancer_groups-dealt :
      (messages : List Event → Result Object) (garbage : ℤ) (x : External) (c : Settings)
      (count stamp : ℕ) (trace : List Event) (o : Object) (kvs : List (Object × Object))
      (ss : List SizedGroups) (group : List ℤ)
      → let asked = Event.get_group_weights ((stamp + 1) % word) ∷ trace in
        let gs = offered count [] ss in
        c.has_dealer ≡ true
        → messages asked ≡ ok o
        → m.as_map o ≡ some kvs
        → OffersAll kvs ss
        → ss ≢ []
        → All IsBalancedSize ss
        → pick (x.drawn (Event.random ∷ asked) (weight_sum gs)) gs ≡ ok group
        → (get_metabalancer_groups
            (dealt m messages garbage x)
            c
            count
            (record { trace = trace; cache = []; stamp = stamp })).0
          ≡ ok group
  unfolding dealt
  get_metabalancer_groups-dealt messages garbage x c count stamp trace o kvs ss group dealer answer
        map offers any balanced picked =
      get_metabalancer_groups_fresh (dealt m messages garbage x) c count stamp trace
        (record { info = ss }) group dealer
        (rw answer (convert_weights_lem o kvs ss (record { info = [] }) map offers)) any balanced
        picked
