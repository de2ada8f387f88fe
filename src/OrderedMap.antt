-- ===== src/OrderedMap.antt =====
-- `std::map` as the list of its entries in the order of the keys; `less` is its comparison.
pub mod Laws
pub mod Order
use libelliptics_proxy.Base.{Bool, List, [], ◌∷◌, Option, none, some, if◌then◌else◌}

abbrev pub Map {ℓ κ} : Type ℓ → Type κ → Type (ℓ ⊔ κ)
Map K V = List (K × V)

module _ {ℓ κ} {K : Type ℓ} {V : Type κ} (less : K → K → Bool) where
  unfoldable pub find : K → Map K V → Option V
  find k [] = none
  find k ((j, v) ∷ m) = if less j k then find k m else if less k j then none else some v

  -- `m[k] = v`.
  unfoldable pub assign : K → V → Map K V → Map K V
  assign k v [] = (k, v) ∷ []
  assign k v ((j, w) ∷ m) =
      if less j k
      then (j, w) ∷ assign k v m
      else if less k j
      then (k, v) ∷ (j, w) ∷ m
      else (k, v) ∷ m

  -- `m.insert(std::make_pair(k, v))`: an entry that is there stays.
  unfoldable pub insert : K → V → Map K V → Map K V
  insert k v [] = (k, v) ∷ []
  insert k v ((j, w) ∷ m) =
      if less j k
      then (j, w) ∷ insert k v m
      else if less k j
      then (k, v) ∷ (j, w) ∷ m
      else (j, w) ∷ m

  -- The entry that `m.lower_bound(k)` points to.
  unfoldable pub lower_bound : K → Map K V → Option (K × V)
  lower_bound k [] = none
  lower_bound k ((j, v) ∷ m) = if less j k then lower_bound k m else some (j, v)

  -- The value of `m[k]`, which is `d` where the key is new.
  abbrev pub at_or : V → K → Map K V → V
  at_or d k m = elim (find k m) [ none ↦ d | some v ↦ v ]
