-- ===== src/Tests/Opening.antt =====
-- The theorems on the constructor, the converters and `lookup_addr` (src/proxy.cpp,
-- include/elliptics/proxy.hpp) at a small node.
use libelliptics_proxy.Base.{
  ℕ, ◌≡◌, refl, inl, inr, ℤ, pos, Bool, false, List, [], ◌∷◌, Option, none, some, arith, eqb_ℤ,
  Bytes, if◌then◌else◌, Bool-cases,
}
use libelliptics_proxy.Result.{Result, ok, throw, library}
use libelliptics_proxy.Config.{Remote, remote, Config, default_config}
use libelliptics_proxy.Lifetime.{settings_of, open_proxy}
use libelliptics_proxy.Lifetime.Opening.{
  IsReachable, dealer_opened, remotes_tried, node_opened, open_proxy_lem,
}
use libelliptics_proxy.Groups.{get_groups}
use libelliptics_proxy.Calls.{read_remote}
use libelliptics_proxy.Weights.{GroupWithWeight, SizedGroups}
use libelliptics_proxy.Metabase.{get_metabalancer_groups}
use libelliptics_proxy.Msgpack.{Converter, convert_info, dealt}
use libelliptics_proxy.Msgpack.Info.{Converted, Field, convert_info_lem}
use libelliptics_proxy.Msgpack.SizedWeights.{get_metabalancer_groups-dealt}
use libelliptics_proxy.Public.{lookup_addr}
use libelliptics_proxy.Public.Addresses.{questions, lookup_addr_lem}
use libelliptics_proxy.Proxy.{External, Event, GroupInfoResponse, codes, note}
use libelliptics_proxy.Tests.Fixtures.{node, settings, start, key, pair_weights}

-- A node that refuses the remote at port 2.
abbrev refuses_remote : List Event → Bool
refuses_remote (Event.add_remote host port family ∷ es) = eqb_ℤ port (pos 2)
refuses_remote _ = false

abbrev pub wary_node : External
wary_node = record node { done = λ es. if refuses_remote es then throw (library 8) else ok tt }

abbrev pub config : Config
unfolding default_config
config = record (default_config 3) {
  remotes = remote (0x61 ∷ []) (pos 1) ∷ remote (0x62 ∷ []) (pos 2) ∷ [];
  cocaine_config = 0x63 ∷ [];
  groups = pos 8 ∷ [];
}

pub wary_node-IsReachable : IsReachable wary_node
wary_node-IsReachable r es = elim (Bool-cases (eqb_ℤ r.port (pos 2))) [
  | inl e ↦ inr (library 8, rw e refl, refl)
  | inr e ↦ inl (rw e refl)
]

open_proxy_lem_example : open_proxy wary_node 77 config start ≡ (
  ok (settings_of config),
  record {
    trace =
        dealer_opened wary_node config
          (remotes_tried wary_node config.remotes (node_opened wary_node config []));
    cache = [];
    stamp = 77;
  },
)
unfolding default_config
open_proxy_lem_example =
    open_proxy_lem wary_node config 77 start (λ e. cc) refl refl wary_node-IsReachable
      (λ e. (refl, refl))

-- Messages: maps, texts, numbers, groups.
mutual
  data Message : Type 0 where
    pairs : Pairs → Message
    text : Bytes → Message
    ints : List ℤ → Message
    number : ℕ → Message
    weighted : List GroupWithWeight → Message

  data Pairs : Type 0 where
    no_pairs : Pairs
    pair : Message → Message → Pairs → Pairs

abbrev listed : Pairs → List (Message × Message)
listed no_pairs = []
listed (pair k v kvs) = (k, v) ∷ listed kvs

abbrev pairs_of : Message → Option (List (Message × Message))
pairs_of (pairs kvs) = some (listed kvs)
pairs_of _ = none

abbrev text_of : Message → Result Bytes
text_of (text b) = ok b
text_of _ = throw (library 9)

abbrev ints_of : Message → Result (List ℤ)
ints_of (ints l) = ok l
ints_of _ = throw (library 9)

abbrev number_of : Message → Result ℕ
number_of (number n) = ok n
number_of _ = throw (library 9)

abbrev groups_of : Message → Result (List GroupWithWeight)
groups_of (weighted l) = ok l
groups_of _ = throw (library 9)

abbrev converter : Converter Message
converter = record {
  as_map = pairs_of;
  to_text = text_of;
  to_ints = ints_of;
  to_number = number_of;
  to_groups = groups_of;
  type_error = library 9;
}

-- A group that is coupled with the groups 1 and 2, and a status that nobody knows.
abbrev info_pairs : Pairs
info_pairs =
    pair (text (codes "couples")) (ints (pos 1 ∷ pos 2 ∷ []))
      (pair (text (codes "status")) (text (codes "odd")) no_pairs)

abbrev info_fields : List Field
info_fields =
    record { name = codes "couples"; couples = pos 1 ∷ pos 2 ∷ []; status = [] }
    ∷ record { name = codes "status"; couples = []; status = codes "odd" }
    ∷ []

abbrev unset : GroupInfoResponse
unset = record { nodes = []; couples = []; status = pos 77 }

convert_info_lem_example :
    Converted converter unset info_fields (convert_info converter (pairs info_pairs) unset)
convert_info_lem_example =
    convert_info_lem converter (pairs info_pairs) (listed info_pairs) info_fields unset refl (
      record { named = refl; couples_read = λ e. refl; status_read = λ e. cc },
      (record { named = refl; couples_read = λ e. cc; status_read = λ e. refl }, tt),
    )

abbrev weights_pairs : Pairs
weights_pairs = pair (number 2) (weighted pair_weights) no_pairs

abbrev sizes : List SizedGroups
sizes = record { size = 2; weighted_groups = pair_weights } ∷ []

get_metabalancer_groups-dealt_example :
    (get_metabalancer_groups
      (dealt converter (λ es. ok (pairs weights_pairs)) (pos 77) node)
      settings
      2
      start).0
    ≡ ok (pos 3 ∷ pos 4 ∷ [])
get_metabalancer_groups-dealt_example =
    get_metabalancer_groups-dealt converter (λ es. ok (pairs weights_pairs)) (pos 77) node settings
      2 0 [] (pairs weights_pairs) (listed weights_pairs) sizes (pos 3 ∷ pos 4 ∷ []) refl refl refl
      (record { sized = refl; grouped = refl }, tt) (λ e. cc)
      (record { positive = (omega arith, (omega arith, tt)); fits = omega arith }, tt) refl

-- A node whose answer is `h:` and a number.
abbrev locating_node : External
locating_node = record node { text = λ es. ok (0x68 ∷ 0x3a ∷ 0x31 ∷ 0x31 ∷ []) }

abbrev found_remote : Remote
found_remote = remote (0x68 ∷ []) (pos 1)

lookup_addr_lem_example :
    lookup_addr locating_node settings key (some (pos 5 ∷ pos 6 ∷ [])) start ≡ (
      ok (found_remote ∷ found_remote ∷ []),
      record start {
        trace = questions locating_node settings key (pos 5 ∷ pos 6 ∷ []) (Event.open_session ∷ []);
      },
    )
unfolding get_groups read_remote
lookup_addr_lem_example =
    lookup_addr_lem locating_node settings key (some (pos 5 ∷ pos 6 ∷ [])) (pos 5 ∷ pos 6 ∷ [])
      (pos 5 ∷ pos 6 ∷ []) (found_remote ∷ found_remote ∷ []) start (note start Event.open_session)
      refl refl
      (
        (0x68 ∷ 0x3a ∷ 0x31 ∷ 0x31 ∷ [], refl, refl),
        ((0x68 ∷ 0x3a ∷ 0x31 ∷ 0x31 ∷ [], refl, refl), tt),
      )
