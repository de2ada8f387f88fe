-- ===== src/Tests/Sessions.antt =====
-- The theorems on the methods of the proxy other than `write_impl` (src/proxy.cpp) at a small node.
use libelliptics_proxy.Base.{◌≡◌, refl, inl, ℤ, pos, List, [], ◌∷◌, arith}
use libelliptics_proxy.Result.{ok}
use libelliptics_proxy.OrderedMap.{Map}
use libelliptics_proxy.Ids.{Key}
use libelliptics_proxy.Metabase.{collect_group_weights_loop}
use libelliptics_proxy.Metabase.Rounds.{Survives, collect_group_weights_loop-Survives}
use libelliptics_proxy.Groups.{stored_groups}
use libelliptics_proxy.Calls.{remove_by_id}
use libelliptics_proxy.Calls.Removal.{IsRegular, remove_by_id_lem}
use libelliptics_proxy.Proxy.{IoAttr, Settings, Event}
use libelliptics_proxy.Tests.Fixtures.{node, settings, start, key, dnet_id, response}

-- The metabase.
collect_group_weights_loop-Survives_example :
    Survives node settings 2 start (collect_group_weights_loop node settings 2 start)
collect_group_weights_loop-Survives_example =
    collect_group_weights_loop-Survives node settings 2 start (omega arith) refl
      (λ es. inl (response, refl))

-- Groups: the metabase holds 5 and 6; without one, the settings decide.
abbrev plain : Settings
plain = record settings { metabase_read_addr = [] }

plain-stored_groups : stored_groups node plain key start ≡ (ok (pos 8 ∷ pos 9 ∷ []), start)
unfolding stored_groups
plain-stored_groups = refl

-- Removals: group 1 refuses.
node-IsRegular : IsRegular node dnet_id
node-IsRegular es = ground arith

remove_by_id_lem_example :
    remove_by_id node dnet_id (pos 1 ∷ pos 2 ∷ []) (pos 1 ∷ pos 2 ∷ []) start ≡ (
      ok tt,
      record start {
        trace =
            Event.remove_id (record dnet_id { group_id = pos 2 })
            ∷ Event.log_error
            ∷ Event.remove_id (record dnet_id { group_id = pos 1 })
            ∷ [];
      },
    )
remove_by_id_lem_example = remove_by_id_lem node dnet_id (pos 1 ∷ pos 2 ∷ []) start node-IsRegular

-- Ranges: group 1 throws, and group 2 has two bytes.
abbrev attr : IoAttr
attr = record {
  id = 1 ∷ 2 ∷ [];
  parent = 255 ∷ 255 ∷ [];
  start = 0;
  num = 5;
  flags = 0;
  type = pos 0;
  size = 0;
}

-- Copies: one object reached two groups.
abbrev reached : Map Key (List ℤ)
reached = (key, pos 1 ∷ pos 2 ∷ []) ∷ []
