-- ===== src/Bulk/Reading.antt =====
-- A bulk read of keys by identifier, from end to end (src/proxy.cpp, lines 743-819).
use libelliptics_proxy.Base.{
  ℕ, ◌≡◌, refl, ap, ◌∙◌, ℤ, Bool, true, false, List, [], ◌∷◌, Option, none, some, All, Bytes,
  if◌then◌else◌,
}
use libelliptics_proxy.Result.{ok}
use libelliptics_proxy.OrderedMap.{Map, find, insert}
use libelliptics_proxy.OrderedMap.Laws.{insert-All}
use libelliptics_proxy.OrderedMap.Order.{IsValidMap, find-insert}
use libelliptics_proxy.Ids.{KeyId, Key, id_less, key_eq, key_less, default_key}
use libelliptics_proxy.Ids.Order.{IsValidId, IsValidKey}
use libelliptics_proxy.Ids.Places.{id-IsOrder, key-IsOrder, same-key_eq}
use libelliptics_proxy.Groups.{get_groups}
use libelliptics_proxy.Proxy.{
  External, Settings, World, Event, IoAttr, M, note, bind_ok, ask, lift, pure, log_failure, ◌>>=◌,
}
use libelliptics_proxy.Bulk.{
  bulk_attr, read_attrs, identified, read_record, collect_records, bulk_read_impl,
}
use libelliptics_proxy.Bulk.Naming.{
  named_key, IsNaming, named_key-IsValidKey, named_key-insert, insert_default-IsNaming,
  insert-IsNaming,
}
use libelliptics_proxy.Bulk.Writing.{IsNumbered, identified_lem}

module _ (x : External) (garbage : ℤ) where
  abbrev n : ℕ
  n = x.platform.id_size

  -- The key that an identifier stands for.
  abbrev pub key_of : Map KeyId Key → KeyId → Key
  key_of = named_key (IsValidId n) (id_less n) (id-IsOrder n) n garbage

  abbrev pub IsTransformed : Map KeyId Key → Type 0
  IsTransformed = IsNaming (IsValidId n) (id_less n) (id-IsOrder n) n garbage

  -- The records of an answer, taken apart.
  abbrev pub Reads : List Bytes → List (KeyId × Bytes) → Type 0
  Reads [] [] = Unit {0}
  Reads [] (d ∷ ds) = ⊥
  Reads (r ∷ rs) [] = ⊥
  Reads (r ∷ rs) (d ∷ ds) = (read_record x garbage r ≡ ok d) × Reads rs ds

  -- The content of the first record that belongs to a key.
  abbrev pub first_of : Map KeyId Key → Key → List (KeyId × Bytes) → Option Bytes
  first_of m k [] = none
  first_of m k ((id, bytes) ∷ ds) = if key_eq n (key_of m id) k then some bytes else first_of m k ds

  -- The first answer, or else the second.
  abbrev or_else : Option Bytes → Option Bytes → Option Bytes
  or_else (some b) o = some b
  or_else none o = o

  first_of-insert :
      (m : Map KeyId Key) (id : KeyId) (k : Key) (ds : List (KeyId × Bytes))
      → IsValidId n id
      → IsTransformed m
      → All (λ d. IsValidId n d.0) ds
      → first_of (insert (id_less n) id (default_key n garbage) m) k ds ≡ first_of m k ds
  first_of-insert m id k [] h hm hs = refl
  first_of-insert m id k ((j, bytes) ∷ ds) h hm hs =
      rw
        (
          named_key-insert (IsValidId n) (id_less n) (id-IsOrder n) n garbage m j id hs.0 h hm,
          first_of-insert m id k ds h hm hs.1,
        )
        refl

  abbrev IsKeyed : Map Key Bytes → Type 0
  IsKeyed = IsValidMap (IsValidKey n) (key_less n) (key-IsOrder n)

  -- What one record adds for a key.
  found_after :
      (k key : Key) (bytes : Bytes) (ret : Map Key Bytes) (rest : Option Bytes)
      → IsValidKey n k
      → IsValidKey n key
      → IsKeyed ret
      → or_else (find (key_less n) k (insert (key_less n) key bytes ret)) rest
        ≡ or_else (find (key_less n) k ret) (if key_eq n key k then some bytes else rest)
  found_after k key bytes ret rest hk h hm =
      ap (λ o. or_else o rest)
        (find-insert (IsValidKey n) (key_less n) (key-IsOrder n) k key bytes ret hk h hm)
      ∙ rw (same-key_eq n key k h hk) (either (key_eq n key k) (find (key_less n) k ret))
    where
      either :
          (b : Bool) (o : Option Bytes)
          → or_else (if b then some (elim o [ none ↦ bytes | some v ↦ v ]) else o) rest
            ≡ or_else o (if b then some bytes else rest)
      either true none = refl
      either true (some v) = refl
      either false none = refl
      either false (some v) = refl

  collect_records_from :
      (rs : List Bytes) (ds : List (KeyId × Bytes)) (m : Map KeyId Key) (ret : Map Key Bytes)
      → Reads rs ds
      → All (λ d. IsValidId n d.0) ds
      → IsTransformed m
      → IsKeyed ret
      → (ret' : Map Key Bytes) × (collect_records x garbage rs m ret ≡ ok ret')
        × ((k : Key)
            → IsValidKey n k
            → find (key_less n) k ret' ≡ or_else (find (key_less n) k ret) (first_of m k ds))
  unfolding collect_records
  collect_records_from [] [] m ret h hs hm hr =
      (ret, refl, λ k hk. nothing (find (key_less n) k ret))
    where
      nothing : (o : Option Bytes) → o ≡ or_else o none
      nothing none = refl
      nothing (some b) = refl
  collect_records_from [] (d ∷ ds) m ret h hs hm hr = absurd h
  collect_records_from (r ∷ rs) [] m ret h hs hm hr = absurd h
  collect_records_from (r ∷ rs) ((id, bytes) ∷ ds) m ret h hs hm hr =
      let key = key_of m id in
      let valid = named_key-IsValidKey (IsValidId n) (id_less n) (id-IsOrder n) n garbage m id hm in
      let (ret', e, found) =
        collect_records_from rs ds (insert (id_less n) id (default_key n garbage) m)
          (insert (key_less n) key bytes ret) h.1 hs.1
          (insert_default-IsNaming (IsValidId n) (id_less n) (id-IsOrder n) n garbage m id hs.0 hm)
          (insert-All (λ e. IsValidKey n e.0) (key_less n) key bytes ret valid hr) in
      (
        ret',
        rw (collect_records, h.0) e,
        λ k hk.
            found k hk
            ∙ ap (or_else (find (key_less n) k (insert (key_less n) key bytes ret)))
                (first_of-insert m id k ds hs.0 hm hs.1)
            ∙ found_after k key bytes ret (first_of m k ds) hk valid hr,
      )

  -- The attributes of the keys, and the keys by their identifiers, of which the first counts.
  abbrev pub attrs_of : List Key → List IoAttr
  attrs_of [] = []
  attrs_of (k ∷ ks) = bulk_attr n k.id.id.id 0 ∷ attrs_of ks

  abbrev pub numbered : List Key → Map KeyId Key → Map KeyId Key
  numbered [] m = m
  numbered (k ∷ ks) m = numbered ks (insert (id_less n) k.id k m)

  read_attrs_lem :
      (keys : List Key) (m : Map KeyId Key) (w : World)
      → All (IsNumbered x garbage) keys
      → read_attrs x garbage keys m w ≡ (ok (attrs_of keys, numbered keys m), w)
  unfolding read_attrs
  read_attrs_lem [] m w h = refl
  read_attrs_lem (k ∷ ks) m w h =
      let attr : Key → IoAttr = λ tmp. bulk_attr n tmp.id.id.id 0 in
      let add : Key → List IoAttr × Map KeyId Key → M (List IoAttr × Map KeyId Key) =
        λ tmp r. pure (attr tmp ∷ r.0, r.1) in
      let m' = insert (id_less n) k.id k m in
      bind_ok (identified x garbage k)
        (λ tmp. read_attrs x garbage ks (insert (id_less n) tmp.id k m) >>= add tmp) w w k
        (identified_lem x garbage k w h.0.0)
      ∙ bind_ok (read_attrs x garbage ks m') (add k) w w (attrs_of ks, numbered ks m')
          (read_attrs_lem ks m' w h.1)

  IsTransformed-numbered :
      (keys : List Key) (m : Map KeyId Key)
      → All (IsNumbered x garbage) keys
      → IsTransformed m
      → IsTransformed (numbered keys m)
  IsTransformed-numbered [] m h hm = hm
  IsTransformed-numbered (k ∷ ks) m h hm = IsTransformed-numbered ks _ h.1 (
      insert-IsNaming (IsValidId n) (id_less n) (id-IsOrder n) n garbage m k.id k (h.0.1 h.0.0)
        h.0.1 hm)

  -- Valid keys by identifier are read from groups that the call names: where the node answers with
  -- records that are well formed and whose identifiers are whole, the call asks once, and returns a map
  -- in which under each valid key stands the content of the first record that belongs to it, and
  -- nothing where there is no such record. A record belongs to the first key with its identifier that
  -- the call names, or else to a default key.
  pub bulk_read-numbered :
      (c : Settings) (key : Key) (keys : List Key) (g : ℤ) (gs : List ℤ) (rs : List Bytes)
      (ds : List (KeyId × Bytes)) (w : World)
      → let all = key ∷ keys in
        let es =
          Event.bulk_read (attrs_of all)
          ∷ Event.set_groups (g ∷ gs)
          ∷ Event.open_session
          ∷ w.trace in
        All (IsNumbered x garbage) all
        → x.texts es ≡ ok rs
        → Reads rs ds
        → All (λ d. IsValidId n d.0) ds
        → (ret : Map Key Bytes) × (bulk_read_impl x garbage c all (g ∷ gs) w
            ≡ (ok ret, record w { trace = es }))
          × ((k : Key) → IsValidKey n k → find (key_less n) k ret ≡ first_of (numbered all []) k ds)
  unfolding bulk_read_impl get_groups find
  bulk_read-numbered c key keys g gs rs ds w h answer reads whole =
      let all = key ∷ keys in
      let m = numbered all [] in
      let sent = note (note w Event.open_session) (Event.set_groups (g ∷ gs)) in
      let (ret, e, found) =
        collect_records_from rs ds m [] reads whole (IsTransformed-numbered all [] h (tt, tt)) tt in
      let collected : (ask x.texts (Event.bulk_read (attrs_of all)) >>= λ result.
      lift (collect_records x garbage result m []))
            sent
          ≡ (ok ret, note sent (Event.bulk_read (attrs_of all))) =
        rw (answer, e) refl in
      (
        ret,
        ap log_failure (
            bind_ok (read_attrs x garbage all [])
              (λ r. ask x.texts (Event.bulk_read r.0) >>= λ result.
                lift (collect_records x garbage result r.1 []))
              sent sent (attrs_of all, m) (read_attrs_lem all [] sent h)
            ∙ collected),
        found,
      )
