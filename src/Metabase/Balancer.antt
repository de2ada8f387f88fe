-- ===== src/Metabase/Balancer.antt =====
-- `get_metabalancer_groups_impl` and the thread that renews the weights (src/proxy.cpp).
use libelliptics_proxy.Base.{
  ℕ, ◌+◌, ◌%◌, ◌≡◌, ◌≢◌, refl, ap, ◌∙◌, ℤ, true, List, [], ◌∷◌, word, All, if◌then◌else◌,
}
use libelliptics_proxy.Result.{ok}
use libelliptics_proxy.Weights.{MetabaseGroupWeightsResponse, update, choose, initialized}
use libelliptics_proxy.Weights.Choice.{weight_sum, pick}
use libelliptics_proxy.Weights.Caching.{offered, IsBalancedSize, choose-update}
use libelliptics_proxy.Metabase.{
  is_dealer, have_weights, choose_cached, choose_logged, collect_group_weights,
  get_metabalancer_groups,
}
use libelliptics_proxy.Proxy.{
  External, Settings, World, Event, bind_ok, handle, tell, raise, pure, ◌>>◌,
}

-- The world once an answer has come in.
abbrev informed : List Event → ℕ → MetabaseGroupWeightsResponse → World
informed asked stamp resp = record { trace = asked; cache = (update [] resp).1; stamp = stamp }

have_weights_fresh :
    (x : External) (c : Settings) (stamp : ℕ) (trace : List Event)
    (resp : MetabaseGroupWeightsResponse)
    → let next = (stamp + 1) % word in
      let asked = Event.get_group_weights next ∷ trace in
      c.has_dealer ≡ true
      → x.weights asked ≡ ok resp
      → (update [] resp).0 ≡ true
      → have_weights x c (record { trace = trace; cache = []; stamp = stamp })
        ≡ (ok true, informed asked next resp)
unfolding have_weights collect_group_weights initialized
have_weights_fresh x c stamp trace resp dealer answer changed = rw (dealer, answer, changed) refl

-- A proxy with a dealer and an empty cache asks the metabase for weights first; from an answer that
-- is not empty, whose weights are positive with sums that fit 64 bits, it returns the group in
-- whose share the random point lies.
pub get_metabalancer_groups_fresh :
    (x : External) (c : Settings) (count stamp : ℕ) (trace : List Event)
    (resp : MetabaseGroupWeightsResponse) (group : List ℤ)
    → let next = (stamp + 1) % word in
      let asked = Event.get_group_weights next ∷ trace in
      let gs = offered count [] resp.info in
      c.has_dealer ≡ true
      → x.weights asked ≡ ok resp
      → resp.info ≢ []
      → All IsBalancedSize resp.info
      → pick (x.drawn (Event.random ∷ asked) (weight_sum gs)) gs ≡ ok group
      → (get_metabalancer_groups x c count (record { trace = trace; cache = []; stamp = stamp })).0
        ≡ ok group
unfolding get_metabalancer_groups choose_logged choose_cached
get_metabalancer_groups_fresh x c count stamp trace resp group dealer answer some balanced picked =
    let next = (stamp + 1) % word in
    let asked = Event.get_group_weights next ∷ trace in
    let draw = x.drawn (Event.random ∷ asked) in
    let (changed, chosen) = choose-update draw count [] resp some balanced in
    ap (λ r. (handle is_dealer (λ e. tell Event.log_error >> raise e) r).0)
      (bind_ok (have_weights x c) (λ ready. if ready then choose_logged x c count else pure [])
          (record { trace = trace; cache = []; stamp = stamp }) (informed asked next resp) true
          (have_weights_fresh x c stamp trace resp dealer answer changed)
        ∙ bind_ok (choose_cached x c count) (λ result. tell Event.log_info >> pure result)
            (informed asked next resp)
            (record {
              trace = Event.random ∷ asked;
              cache = (choose draw count (update [] resp).1).1;
              stamp = next;
            })
            group
            (λ i. (
              (chosen ∙ picked) i,
              record {
                trace = Event.random ∷ asked;
                cache = (choose draw count (update [] resp).1).1;
                stamp = next;
              },
            )))
