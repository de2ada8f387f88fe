-- ===== src/Tests/Runs.antt =====
-- The theorems on a proxy at work (src/proxy.cpp, src/group_weights_cache.cpp) at a run of the
-- constructor, a call that the metabase serves, and a round of the thread.
use libelliptics_proxy.Base.{true, ◌≡◌, refl, pos, [], none, some, arith, All}
use libelliptics_proxy.Result.{ok}
use libelliptics_proxy.Config.{default_config}
use libelliptics_proxy.Lifetime.{settings_of, open_proxy}
use libelliptics_proxy.Lifetime.Opening.{dealer_opened, remotes_tried, node_opened, open_proxy_lem}
use libelliptics_proxy.Weights.{MetabaseGroupWeightsResponse, choose, update, collect, initialized}
use libelliptics_proxy.Weights.Choice.{weight_sum, pick}
use libelliptics_proxy.Weights.Caching.{offered, IsBalancedSize}
use libelliptics_proxy.Metabase.{collect_round, have_weights}
use libelliptics_proxy.Public.{get_metabalancer_groups_of}
use libelliptics_proxy.OrderedMap.{assign}
use libelliptics_proxy.Proxy.{World}
use libelliptics_proxy.System.{Reach, opened, later, balances, renews, done, further}
use libelliptics_proxy.System.Newest.{newest, IsSteady}
use libelliptics_proxy.System.Informed.{Steps-initialized}
use libelliptics_proxy.System.Steady.{Reach-IsSteady, Reach-choose}
use libelliptics_proxy.Tests.Fixtures.{start, response}
use libelliptics_proxy.Tests.Opening.{wary_node, config, wary_node-IsReachable}

abbrev opened_world : World
opened_world = record {
  trace =
      dealer_opened wary_node config
        (remotes_tried wary_node config.remotes (node_opened wary_node config []));
  cache = [];
  stamp = 77;
}

opened_run : open_proxy wary_node 77 config start ≡ (ok (settings_of config), opened_world)
unfolding default_config
opened_run =
    open_proxy_lem wary_node config 77 start (λ e. cc) refl refl wary_node-IsReachable
      (λ e. (refl, refl))

abbrev served_world : World
served_world =
    (get_metabalancer_groups_of wary_node (settings_of config) (some 2) none none opened_world).1

abbrev renewed_world : World
renewed_world = (collect_round wary_node (settings_of config) served_world).1

renewed_world-Reach : Reach wary_node config (pos 0) 77 renewed_world
renewed_world-Reach =
    later (later (opened start refl opened_run) (balances (some 2) none none)) renews

wary_node-balanced :
    (resp : MetabaseGroupWeightsResponse) → ok response ≡ ok resp → All IsBalancedSize resp.info
wary_node-balanced resp e =
    let same : response ≡ resp = cc in
    rw (← same) (record { positive = (omega arith, (omega arith, tt)); fits = omega arith }, tt)

Reach-IsSteady_example : IsSteady wary_node 77 renewed_world
Reach-IsSteady_example =
    Reach-IsSteady wary_node config (pos 0) 77 renewed_world (omega arith) renewed_world-Reach

Reach-choose_example :
    (choose (λ total. total) 2 renewed_world.cache).0
    ≡ pick
        (weight_sum (offered 2 [] (newest wary_node renewed_world.trace)))
        (offered 2 [] (newest wary_node renewed_world.trace))
Reach-choose_example =
    Reach-choose wary_node config (pos 0) 77 renewed_world 2 (λ total. total) (omega arith)
      renewed_world-Reach (λ ds resp e. wary_node-balanced resp e)

renewed_world-initialized : initialized renewed_world.cache ≡ true
unfolding initialized get_metabalancer_groups_of default_config choose update collect collect_round
    settings_of assign
renewed_world-initialized = refl

Steps-initialized_example :
    (initialized (collect_round wary_node (settings_of config) renewed_world).1.cache ≡ true)
    × (have_weights wary_node
          (settings_of config)
          (collect_round wary_node (settings_of config) renewed_world).1
        ≡ (ok true, (collect_round wary_node (settings_of config) renewed_world).1))
Steps-initialized_example =
    Steps-initialized wary_node (settings_of config) (pos 0) renewed_world
      (collect_round wary_node (settings_of config) renewed_world).1 renewed_world-initialized
      (further done renews)
