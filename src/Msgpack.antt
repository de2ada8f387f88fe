-- ===== src/Msgpack.antt =====
-- The converters of src/proxy.cpp from objects of msgpack to the answers of the metabase. Objects and
-- their conversion to texts, numbers and vectors belong to msgpack, the parameter `Converter`.
pub mod Info
pub mod SizedWeights
use libelliptics_proxy.Base.{
  ℕ, ℤ, pos, Bool, true, false, List, [], ◌∷◌, ◌++◌, Option, none, some, Bytes, eqb_bytes,
  if◌then◌else◌,
}
use libelliptics_proxy.Result.{Exception, Result, ok, throw, undefined, ◌>>=◌}
use libelliptics_proxy.Weights.{GroupWithWeight, SizedGroups, MetabaseGroupWeightsResponse}
use libelliptics_proxy.Proxy.{External, Event, GroupInfoResponse, codes}

-- The pairs of an object of the type `MAP`, `convert` to the types that the converters name, and the
-- exception `type_error`.
pub record Converter (Object : Type 0) : Type 0 where
  pub as_map : Object → Option (List (Object × Object))
  pub to_text : Object → Result Bytes
  pub to_ints : Object → Result (List ℤ)
  pub to_number : Object → Result ℕ
  pub to_groups : Object → Result (List GroupWithWeight)
  pub type_error : Exception

-- `GROUP_INFO_STATUS_BAD` and `GROUP_INFO_STATUS_COUPLED`.
abbrev pub status_bad : ℤ
status_bad = pos 1

abbrev pub status_coupled : ℤ
status_coupled = pos 2

-- A status that is neither of the two texts leaves the member as it was.
unfoldable pub convert_status : Bytes → GroupInfoResponse → GroupInfoResponse
convert_status status v =
    if eqb_bytes status (codes "bad")
    then record v { status = status_bad }
    else if eqb_bytes status (codes "coupled")
    then record v { status = status_coupled }
    else v

module _ {Object : Type 0} (m : Converter Object) where
  -- One pair, whose key has been converted; nodes are not read.
  unfoldable pub convert_field : Bytes → Object → GroupInfoResponse → Result GroupInfoResponse
  unfolding convert_status
  convert_field key val v =
      let couples : Result GroupInfoResponse = do cs ← m.to_ints val; ok (record v { couples = cs })
      in let status : Result GroupInfoResponse = do s ← m.to_text val; ok (convert_status s v)
        in if eqb_bytes key (codes "couples")
          then couples
          else if eqb_bytes key (codes "status")
          then status
          else ok v

  unfoldable pub convert_fields :
      List (Object × Object) → GroupInfoResponse → Result GroupInfoResponse
  unfolding convert_field
  convert_fields [] v = ok v
  convert_fields ((key, val) ∷ kvs) v = do
    name ← m.to_text key
    v' ← convert_field name val v
    convert_fields kvs v'

  unfoldable pub convert_info : Object → GroupInfoResponse → Result GroupInfoResponse
  unfolding convert_fields
  convert_info o v = elim (m.as_map o) [
    | none ↦ throw m.type_error
    | some kvs ↦ convert_fields kvs v
  ]

  unfoldable pub convert_sizes :
      List (Object × Object) → MetabaseGroupWeightsResponse → Result MetabaseGroupWeightsResponse
  convert_sizes [] v = ok v
  convert_sizes ((key, val) ∷ kvs) v = do
    size ← m.to_number key
    groups ← m.to_groups val
    convert_sizes kvs
        (record v { info = v.info ++ (record { size = size; weighted_groups = groups } ∷ []) })

  unfoldable pub convert_weights :
      Object → MetabaseGroupWeightsResponse → Result MetabaseGroupWeightsResponse
  unfolding convert_sizes
  convert_weights o v = elim (m.as_map o) [
    | none ↦ throw m.type_error
    | some kvs ↦ convert_sizes kvs v
  ]

  -- The answers of the dealer as the calls have them: the messages, converted. `garbage` is the status
  -- of a response that nobody has set.
  unfoldable pub dealt : (List Event → Result Object) → ℤ → External → External
  unfolding convert_info convert_weights
  dealt messages garbage x = record x {
    weights = λ es. messages es >>= λ o. convert_weights o (record { info = [] });
    info = λ es.
        messages es >>= λ o. convert_info o (record { nodes = []; couples = []; status = garbage });
  }
