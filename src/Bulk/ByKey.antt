-- ===== src/Bulk/ByKey.antt =====
-- The results of a bulk write by key (src/proxy.cpp, lines 894-903).
use mathlib.Core.List.{append_assoc, append-nil}
use libelliptics_proxy.Base.{
  ℕ, ◌≡◌, refl, sym, ap, ◌∙◌, ℤ, Bool, true, false, List, [], ◌∷◌, ◌++◌, map, Option, none, some,
  All, Bool-cases, inl, inr, if◌then◌else◌,
}
use libelliptics_proxy.OrderedMap.{Map, find, insert, at_or}
use libelliptics_proxy.OrderedMap.Laws.{assign-All}
use libelliptics_proxy.OrderedMap.Order.{same, IsValidMap, find-assign, find-same}
use libelliptics_proxy.Ids.{DnetId, Key, key_eq, key_less, dnet_id_less, default_key}
use libelliptics_proxy.Ids.Order.{IsWellFormed, IsValidKey}
use libelliptics_proxy.Ids.Places.{key-IsOrder, dnet_id-IsOrder, same-key_eq}
use libelliptics_proxy.Lookup.{LookupResult}
use libelliptics_proxy.Proxy.{External}
use libelliptics_proxy.Bulk.{push_at, sort_results}
use libelliptics_proxy.Bulk.Naming.{
  named_key, IsNaming, named_key-IsValidKey, named_key-insert, insert_default-IsNaming,
}

module _ (n : ℕ) where
  -- The entries of a key, of which there are none where it has no entry.
  abbrev pub entries {ℓ} : {V : Type ℓ} → Key → Map Key (List V) → List V
  entries k m = at_or (key_less n) [] k m

  abbrev pub IsKeyed {ℓ} : {V : Type ℓ} → Map Key V → Type 0
  IsKeyed = IsValidMap (IsValidKey n) (key_less n) (key-IsOrder n)

  push_at-IsKeyed {ℓ} :
      {V : Type ℓ} (key : Key) (v : V) (m : Map Key (List V))
      → IsValidKey n key
      → IsKeyed m
      → IsKeyed (push_at n key v m)
  unfolding push_at
  push_at-IsKeyed key v m h hm =
      assign-All (λ e. IsValidKey n e.0) (key_less n) key (entries key m ++ (v ∷ [])) m h hm

  -- The entries by the test of the map, and by `operator==`.
  entries_if {ℓ} :
      {V : Type ℓ} (k key : Key) (v : V) (m : Map Key (List V))
      → IsValidKey n k
      → IsValidKey n key
      → IsKeyed m
      → (elim (if same (key_less n) key k
            then some (entries key m ++ (v ∷ []))
            else find (key_less n) k m)
          as (λ o. List V) [ none ↦ [] | some l ↦ l ])
        ≡ (if key_eq n key k then entries k m ++ (v ∷ []) else entries k m)
  entries_if {V} k key v m hk h hm =
      let listed : Option (List V) → List V = λ o. elim o [ none ↦ [] | some l ↦ l ] in
      let place = same-key_eq n key k h hk in
      elim (Bool-cases (key_eq n key k)) [
        | inl e ↦
            rw (place, e)
              (ap (λ o. listed o ++ (v ∷ []))
                (find-same (IsValidKey n) (key_less n) (key-IsOrder n) key k m h hk hm (place ∙ e)))
        | inr e ↦ rw (place, e) refl
      ]

  entries-push_at {ℓ} :
      {V : Type ℓ} (k key : Key) (v : V) (m : Map Key (List V))
      → IsValidKey n k
      → IsValidKey n key
      → IsKeyed m
      → entries k (push_at n key v m)
        ≡ (if key_eq n key k then entries k m ++ (v ∷ []) else entries k m)
  unfolding push_at
  entries-push_at {V} k key v m hk h hm =
      let listed : Option (List V) → List V = λ o. elim o [ none ↦ [] | some l ↦ l ] in
      let found =
        find-assign (IsValidKey n) (key_less n) (key-IsOrder n) k key (entries key m ++ (v ∷ [])) m
          hk h hm in
      ap listed found ∙ entries_if k key v m hk h hm

module _ (x : External) (garbage : ℤ) where
  abbrev n : ℕ
  n = x.platform.id_size

  -- The key that an identifier stands for.
  abbrev pub key_of : Map DnetId Key → DnetId → Key
  key_of = named_key (IsWellFormed n) (dnet_id_less n) (dnet_id-IsOrder n) n garbage

  abbrev pub IsTransformed : Map DnetId Key → Type 0
  IsTransformed = IsNaming (IsWellFormed n) (dnet_id_less n) (dnet_id-IsOrder n) n garbage

  -- The results that belong to a key, in their order.
  abbrev pub results_of : Map DnetId Key → Key → List LookupResult → List LookupResult
  results_of m k [] = []
  results_of m k (lr ∷ lrs) =
      if key_eq n (key_of m lr.id) k then lr ∷ results_of m k lrs else results_of m k lrs

  abbrev pub group_of : LookupResult → ℤ
  group_of l = l.group

  results_of-insert :
      (m : Map DnetId Key) (id : DnetId) (k : Key) (lrs : List LookupResult)
      → IsWellFormed n id
      → IsTransformed m
      → All (λ lr. IsWellFormed n lr.id) lrs
      → results_of (insert (dnet_id_less n) id (default_key n garbage) m) k lrs ≡ results_of m k lrs
  results_of-insert m id k [] h hm hs = refl
  results_of-insert m id k (lr ∷ lrs) h hm hs =
      rw
        (
          named_key-insert (IsWellFormed n) (dnet_id_less n) (dnet_id-IsOrder n) n garbage m lr.id
              id hs.0 h hm,
          results_of-insert m id k lrs h hm hs.1,
        )
        refl

  abbrev Keyed : Type 0
  Keyed = Map Key (List LookupResult) × Map Key (List ℤ)

  sort_results_from :
      (result : List LookupResult) (m : Map DnetId Key) (res : Map Key (List LookupResult))
      (res_groups : Map Key (List ℤ)) (k : Key)
      → All (λ lr. IsWellFormed n lr.id) result
      → IsTransformed m
      → IsKeyed n res
      → IsKeyed n res_groups
      → IsValidKey n k
      → (entries n k (sort_results x garbage result m res res_groups).0
          ≡ entries n k res ++ results_of m k result)
        × (entries n k (sort_results x garbage result m res res_groups).1
            ≡ entries n k res_groups ++ map group_of (results_of m k result))
  unfolding sort_results
  sort_results_from [] m res res_groups k hs hm hr hg hk =
      (sym (append-nil (entries n k res)), sym (append-nil (entries n k res_groups)))
  sort_results_from (lr ∷ result) m res res_groups k hs hm hr hg hk =
      let key = key_of m lr.id in
      let valid : IsValidKey n key =
        named_key-IsValidKey (IsWellFormed n) (dnet_id_less n) (dnet_id-IsOrder n) n garbage m lr.id
          hm in
      let (rest, rest_groups) =
        sort_results_from result (insert (dnet_id_less n) lr.id (default_key n garbage) m)
          (push_at n key lr res) (push_at n key lr.group res_groups) k hs.1
          (insert_default-IsNaming (IsWellFormed n) (dnet_id_less n) (dnet_id-IsOrder n) n garbage m
            lr.id hs.0 hm)
          (push_at-IsKeyed n key lr res valid hr)
          (push_at-IsKeyed n key lr.group res_groups valid hg) hk in
      let same_rest = results_of-insert m lr.id k result hs.0 hm hs.1 in
      (
        rest
            ∙ rw (same_rest, entries-push_at n k key lr res hk valid hr)
                (one (key_eq n key k) (entries n k res) lr (results_of m k result)),
        rest_groups
            ∙ rw (same_rest, entries-push_at n k key lr.group res_groups hk valid hg)
                (one_group (key_eq n key k) (entries n k res_groups) lr (results_of m k result)),
      )
    where
      one :
          (b : Bool) (l : List LookupResult) (r : LookupResult) (rs : List LookupResult)
          → (if b then l ++ (r ∷ []) else l) ++ rs ≡ l ++ (if b then r ∷ rs else rs)
      one true l r rs = append_assoc l (r ∷ []) rs
      one false l r rs = refl

      one_group :
          (b : Bool) (l : List ℤ) (r : LookupResult) (rs : List LookupResult)
          → (if b then l ++ (r.group ∷ []) else l) ++ map group_of rs
            ≡ l ++ map group_of (if b then r ∷ rs else rs)
      one_group true l r rs = append_assoc l (r.group ∷ []) (map group_of rs)
      one_group false l r rs = refl

  -- A bulk write sorts its results by key: under a valid key stand, in their order, the results whose
  -- identifier is that of the key, and the groups that they name.
  pub sort_results_lem :
      (result : List LookupResult) (m : Map DnetId Key) (k : Key)
      → All (λ lr. IsWellFormed n lr.id) result
      → IsTransformed m
      → IsValidKey n k
      → (entries n k (sort_results x garbage result m [] []).0 ≡ results_of m k result)
        × (entries n k (sort_results x garbage result m [] []).1
            ≡ map group_of (results_of m k result))
  unfolding find
  sort_results_lem result m k hs hm hk = sort_results_from result m [] [] k hs hm tt tt hk
