-- ===== src/Tests/BulkCalls.antt =====
-- The theorems on the bulk calls (src/proxy.cpp) at a small node.
use libelliptics_proxy.Base.{ℕ, ◌≡◌, refl, ℤ, pos, List, [], ◌∷◌, arith, Bytes}
use libelliptics_proxy.Result.{ok}
use libelliptics_proxy.OrderedMap.{Map, find}
use libelliptics_proxy.Ids.{DnetId, KeyId, Key, id_of, key_less}
use libelliptics_proxy.Ids.Order.{IsValidKey}
use libelliptics_proxy.Bulk.{read_record, bulk_read_impl, sort_results, replication_need}
use libelliptics_proxy.Bulk.Writing
use libelliptics_proxy.Bulk.Reading
use libelliptics_proxy.Proxy.{External, Event}
use libelliptics_proxy.Tests.Fixtures.{node, obedient_node, settings, start, id_key, one_result}

abbrev object : Key
object = id_key (1 ∷ 2 ∷ []) (pos 0)

abbrev other_object : Key
other_object = id_key (3 ∷ 4 ∷ []) (pos 0)

object-IsNumbered : Writing.IsNumbered node (pos 0) object
object-IsNumbered =
    (refl, λ e. record { sized = refl; column = 0; typed = refl; small = omega arith })

other_object-IsNumbered : Writing.IsNumbered node (pos 0) other_object
other_object-IsNumbered =
    (refl, λ e. record { sized = refl; column = 0; typed = refl; small = omega arith })

-- A node that holds one byte of the first object.
abbrev held : Bytes
held = 1 ∷ 2 ∷ 1 ∷ 0 ∷ 0 ∷ 0 ∷ 0 ∷ 0 ∷ 0 ∷ 0 ∷ 9 ∷ []

abbrev holding_node : External
holding_node = record node { texts = λ es. ok (held ∷ []) }

abbrev held_record : KeyId × Bytes
held_record = (object.id, 9 ∷ [])

held_record-read_record : read_record holding_node (pos 0) held ≡ ok held_record
unfolding read_record id_of
held_record-read_record = refl

bulk_read-numbered_example :
    (ret : Map Key Bytes) × (bulk_read_impl holding_node
        (pos 0)
        settings
        (object ∷ other_object ∷ [])
        (pos 7 ∷ [])
        start
      ≡ (
        ok ret,
        record start {
          trace =
              Event.bulk_read (Reading.attrs_of holding_node (pos 0) (object ∷ other_object ∷ []))
              ∷ Event.set_groups (pos 7 ∷ [])
              ∷ Event.open_session
              ∷ [];
        },
      ))
    × ((k : Key)
        → IsValidKey 2 k
        → find (key_less 2) k ret
          ≡ Reading.first_of holding_node
              (pos 0)
              (Reading.numbered holding_node (pos 0) (object ∷ other_object ∷ []) [])
              k
              (held_record ∷ []))
bulk_read-numbered_example =
    Reading.bulk_read-numbered holding_node (pos 0) settings object (other_object ∷ []) (pos 7) []
      (held ∷ []) (held_record ∷ []) start (object-IsNumbered, (other_object-IsNumbered, tt)) refl
      (held_record-read_record, tt)
      (record { sized = refl; column = 0; typed = refl; small = omega arith }, tt)

-- A bulk write of one object, which reaches the group 7.
abbrev object_keys : Map DnetId Key
object_keys = Writing.numbered obedient_node (pos 0) (object ∷ []) []

abbrev object_groups : Map Key (List ℤ)
object_groups = (sort_results obedient_node (pos 0) (one_result ∷ []) object_keys [] []).1

abbrev object_trace : List Event
object_trace =
    Event.bulk_write (Writing.attrs_of obedient_node (pos 0) (object ∷ []) ((5 ∷ []) ∷ []))
      ((5 ∷ []) ∷ [])
    ∷ Event.set_groups (pos 7 ∷ [])
    ∷ Event.open_session
    ∷ []

abbrev object_need : ℕ
object_need = replication_need obedient_node (pos 0) settings (pos 7 ∷ []) (pos 0)
