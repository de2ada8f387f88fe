-- ===== src/Bulk/Naming.antt =====
-- The keys by their identifiers in the bulk calls of src/proxy.cpp, where `m[id]` makes a default key
-- for an identifier that nobody asked for.
use libelliptics_proxy.Base.{
  ℕ, zero, suc, ◌≡◌, refl, ap, ◌∙◌, ℤ, Bool, true, false, [], ◌∷◌, Option, none, some, arith, All,
  replicate, length, Bool-cases, inl, inr, if◌then◌else◌,
}
use libelliptics_proxy.OrderedMap.{Map, find, insert, at_or}
use libelliptics_proxy.OrderedMap.Laws.{insert-All}
use libelliptics_proxy.OrderedMap.Order.{IsOrder, same, find-insert}
use libelliptics_proxy.Ids.{Key, default_key, empty_id, zero_id}
use libelliptics_proxy.Ids.Order.{IsValidKey}

length-replicate {ℓ} : {A : Type ℓ} (n : ℕ) (a : A) → length (replicate n a) ≡ n
length-replicate zero a = refl
length-replicate (suc n) a = ap suc (length-replicate n a)

at_or-All :
    {K V : Type 0} (P : V → Type 0) (less : K → K → Bool) (d : V) (k : K) (m : Map K V)
    → P d
    → All (λ e. P e.1) m
    → P (at_or less d k m)
unfolding find
at_or-All P less d k [] hd h = hd
at_or-All P less d k ((j, v) ∷ m) hd h = elim (Bool-cases (less j k)) [
  | inl e ↦ rw (at_or, e) (at_or-All P less d k m hd h.1)
  | inr e ↦ elim (Bool-cases (less k j)) [
    | inl c ↦ rw (at_or, e, c) hd
    | inr c ↦ rw (at_or, e, c) h.0
  ]
]

module _ (n : ℕ) where
  default_key-IsValidKey : (garbage : ℤ) → IsValidKey n (default_key n garbage)
  unfolding default_key empty_id zero_id
  default_key-IsValidKey garbage =
      λ e. record { sized = length-replicate n 0; column = 0; typed = refl; small = omega arith }

module _ {I : Type 0} (Valid : I → Type 0) (less : I → I → Bool) (order : IsOrder Valid less)
    (n : ℕ) (garbage : ℤ) where
  -- The key that an identifier stands for; one that nobody asked for stands for a default key.
  abbrev pub named_key : Map I Key → I → Key
  named_key m id = at_or less (default_key n garbage) id m

  -- Identifiers and keys are valid.
  abbrev pub IsNaming : Map I Key → Type 0
  IsNaming m = All (λ e. Valid e.0) m × All (λ e. IsValidKey n e.1) m

  pub named_key-IsValidKey : (m : Map I Key) (id : I) → IsNaming m → IsValidKey n (named_key m id)
  named_key-IsValidKey m id h =
      at_or-All (IsValidKey n) less (default_key n garbage) id m (default_key-IsValidKey n garbage)
        h.1

  -- An identifier that is asked for leaves its trace in the map, but no key changes.
  pub named_key-insert :
      (m : Map I Key) (j id : I)
      → Valid j
      → Valid id
      → IsNaming m
      → named_key (insert less id (default_key n garbage) m) j ≡ named_key m j
  named_key-insert m j id hj hid hm =
      let keyed : Option Key → Key = λ o. elim o [ none ↦ default_key n garbage | some k ↦ k ] in
      ap keyed (find-insert Valid less order j id (default_key n garbage) m hj hid hm.0)
      ∙ either (same less id j) (find less j m)
    where
      either :
          (b : Bool) (o : Option Key)
          → (elim (if b then some (elim o [ none ↦ default_key n garbage | some k ↦ k ]) else o)
              as (λ q. Key) [ none ↦ default_key n garbage | some k ↦ k ])
            ≡ elim o [ none ↦ default_key n garbage | some k ↦ k ]
      either true o = refl
      either false o = refl

  pub insert-IsNaming :
      (m : Map I Key) (id : I) (k : Key)
      → Valid id
      → IsValidKey n k
      → IsNaming m
      → IsNaming (insert less id k m)
  insert-IsNaming m id k h hk hm = (
    insert-All (λ e. Valid e.0) less id k m h hm.0,
    insert-All (λ e. IsValidKey n e.1) less id k m hk hm.1,
  )

  pub insert_default-IsNaming :
      (m : Map I Key) (id : I)
      → Valid id
      → IsNaming m
      → IsNaming (insert less id (default_key n garbage) m)
  insert_default-IsNaming m id h hm =
      insert-IsNaming m id (default_key n garbage) h (default_key-IsValidKey n garbage) hm
