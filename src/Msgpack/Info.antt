-- ===== src/Msgpack/Info.antt =====
-- The answer about a group (src/proxy.cpp, lines 151-188) by the pairs of the message.
use libelliptics_proxy.Base.{
  ◌≡◌, refl, ap, ◌∙◌, ℤ, true, false, List, [], ◌∷◌, some, Bytes, arith, eqb_bytes, eqb_bytes→eq,
  Bool-cases, inl, inr, if◌then◌else◌,
}
use libelliptics_proxy.Result.{Result, ok}
use libelliptics_proxy.Proxy.{GroupInfoResponse, codes}
use libelliptics_proxy.Msgpack.{
  Converter, status_bad, status_coupled, convert_status, convert_field, convert_fields,
  convert_info,
}

-- What the pairs of a message say, each with its key: the couples and the status text, as they are
-- where the key asks for them.
pub record Field : Type 0 where
  pub name : Bytes
  pub couples : List ℤ
  pub status : Bytes

-- The couples of the last pair under that key, or `d`.
abbrev pub last_couples : List ℤ → List Field → List ℤ
last_couples d [] = d
last_couples d (f ∷ fs) =
    last_couples (if eqb_bytes f.name (codes "couples") then f.couples else d) fs

-- The number of a status text, or `d` for a text that is not known.
abbrev pub number_of : Bytes → ℤ → ℤ
number_of status d =
    if eqb_bytes status (codes "bad")
    then status_bad
    else if eqb_bytes status (codes "coupled")
    then status_coupled
    else d

-- The status of the last pair under that key with a known text, or `d`.
abbrev pub last_status : ℤ → List Field → ℤ
last_status d [] = d
last_status d (f ∷ fs) =
    last_status (if eqb_bytes f.name (codes "status") then number_of f.status d else d) fs

couples_or_status :
    (name : Bytes)
    → eqb_bytes name (codes "couples") ≡ true
    → eqb_bytes name (codes "status") ≡ false
couples_or_status name h = rw (eqb_bytes→eq name (codes "couples") h)

convert_status-nodes : (s : Bytes) (v : GroupInfoResponse) → (convert_status s v).nodes ≡ v.nodes
unfolding convert_status
convert_status-nodes s v = ground arith

convert_status-couples :
    (s : Bytes) (v : GroupInfoResponse) → (convert_status s v).couples ≡ v.couples
unfolding convert_status
convert_status-couples s v = ground arith

convert_status-status :
    (s : Bytes) (v : GroupInfoResponse) → (convert_status s v).status ≡ number_of s v.status
unfolding convert_status
convert_status-status s v = ground arith

module _ {Object : Type 0} (m : Converter Object) where
  -- A pair that says what a field says.
  pub record Says (kv : Object × Object) (f : Field) : Type 0 where
    pub named : m.to_text kv.0 ≡ ok f.name
    pub couples_read : eqb_bytes f.name (codes "couples") ≡ true → m.to_ints kv.1 ≡ ok f.couples
    pub status_read : eqb_bytes f.name (codes "status") ≡ true → m.to_text kv.1 ≡ ok f.status

  abbrev pub SaysAll : List (Object × Object) → List Field → Type 0
  SaysAll [] [] = Unit {0}
  SaysAll [] (f ∷ fs) = ⊥
  SaysAll (kv ∷ kvs) [] = ⊥
  SaysAll (kv ∷ kvs) (f ∷ fs) = Says kv f × SaysAll kvs fs

  -- What one field makes of a response.
  abbrev after_field : Field → GroupInfoResponse → GroupInfoResponse
  after_field f v =
      if eqb_bytes f.name (codes "couples")
      then record v { couples = f.couples }
      else if eqb_bytes f.name (codes "status")
      then convert_status f.status v
      else v

  fields_step :
      (kv : Object × Object) (kvs : List (Object × Object)) (f : Field) (v : GroupInfoResponse)
      → Says kv f
      → convert_fields m (kv ∷ kvs) v ≡ convert_fields m kvs (after_field f v)
  unfolding convert_fields convert_field
  fields_step kv kvs f v r = elim (Bool-cases (eqb_bytes f.name (codes "couples"))) [
    | inl e ↦ rw (r.named, e, r.couples_read e) refl
    | inr e ↦ elim (Bool-cases (eqb_bytes f.name (codes "status"))) [
      | inl d ↦ rw (r.named, e, d, r.status_read d) refl
      | inr d ↦ rw (r.named, e, d) refl
    ]
  ]

  after_field_lem :
      (f : Field) (v : GroupInfoResponse)
      → ((after_field f v).nodes ≡ v.nodes)
        × ((after_field f v).couples
            ≡ (if eqb_bytes f.name (codes "couples") then f.couples else v.couples))
        × ((after_field f v).status
            ≡ (if eqb_bytes f.name (codes "status") then number_of f.status v.status else v.status))
  after_field_lem f v = elim (Bool-cases (eqb_bytes f.name (codes "couples"))) [
    | inl e ↦ rw (e, couples_or_status f.name e) (refl, refl, refl)
    | inr e ↦ elim (Bool-cases (eqb_bytes f.name (codes "status"))) [
      | inl d ↦
          rw (e, d)
            (
              convert_status-nodes f.status v,
              convert_status-couples f.status v,
              convert_status-status f.status v,
            )
      | inr d ↦ rw (e, d) (refl, refl, refl)
    ]
  ]

  -- A response from a message whose pairs are read.
  abbrev pub Converted : GroupInfoResponse → List Field → Result GroupInfoResponse → Type 0
  Converted v fs r =
      (v' : GroupInfoResponse) × (r ≡ ok v')
      × (v'.nodes ≡ v.nodes)
      × (v'.couples ≡ last_couples v.couples fs)
      × (v'.status ≡ last_status v.status fs)

  fields_lem :
      (kvs : List (Object × Object)) (fs : List Field) (v : GroupInfoResponse)
      → SaysAll kvs fs
      → Converted v fs (convert_fields m kvs v)
  unfolding convert_fields
  fields_lem [] [] v h = (v, refl, refl, refl, refl)
  fields_lem [] (f ∷ fs) v h = absurd h
  fields_lem (kv ∷ kvs) [] v h = absurd h
  fields_lem (kv ∷ kvs) (f ∷ fs) v h =
      let (nodes, couples, status) = after_field_lem f v in
      let (v', e, nodes', couples', status') = fields_lem kvs fs (after_field f v) h.1 in
      (
        v',
        fields_step kv kvs f v h.0 ∙ e,
        nodes' ∙ nodes,
        couples' ∙ ap (λ d. last_couples d fs) couples,
        status' ∙ ap (λ d. last_status d fs) status,
      )

  -- A message that is a map whose pairs are read gives the couples of the last pair under that key,
  -- the status of the last one with a known text, and no nodes; what no pair gives stays as it was,
  -- which for the status of a new response is what the memory held.
  pub convert_info_lem :
      (o : Object) (kvs : List (Object × Object)) (fs : List Field) (v : GroupInfoResponse)
      → m.as_map o ≡ some kvs
      → SaysAll kvs fs
      → Converted v fs (convert_info m o v)
  unfolding convert_info
  convert_info_lem o kvs fs v map says = rw (convert_info, map) (fields_lem kvs fs v says)
