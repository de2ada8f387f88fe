-- ===== src/OrderedMap/Order.antt =====
-- `std::map` against an abstract map, for a comparison that orders the valid keys.
use libelliptics_proxy.Base.{
  ◌≡◌, refl, Bool, true, false, not, ◌&&◌, [], ◌∷◌, some, arith, All, if◌then◌else◌,
}
use libelliptics_proxy.OrderedMap.{Map, find, assign, insert, at_or}

-- A strict order of the valid keys, of which those that lie at one place cannot be told apart.
pub record IsOrder {K : Type 0} (Valid : K → Type 0) (less : K → K → Bool) : Type 0 where
  pub irreflexive : (a : K) → Valid a → less a a ≡ false
  pub transitive :
      (a b c : K)
      → Valid a
      → Valid b
      → Valid c
      → less a b ≡ true
      → less b c ≡ true
      → less a c ≡ true
  pub alike :
      (a b c : K)
      → Valid a
      → Valid b
      → Valid c
      → less a b ≡ false
      → less b a ≡ false
      → (less a c ≡ less b c) × (less c a ≡ less c b)

-- Two keys at one place of the order.
abbrev pub same : {K : Type 0} → (K → K → Bool) → K → K → Bool
same less a b = not (less a b) && not (less b a)

module _ {ℓ} {K : Type 0} {V : Type ℓ} (Valid : K → Type 0) (less : K → K → Bool)
    (order : IsOrder Valid less) where
  abbrev pub IsValidMap : Map K V → Type 0
  IsValidMap = All (λ e. Valid e.0)

  -- `m[k] = v` changes what is found at the place of `k`, and nothing else.
  pub find-assign :
      (j k : K) (v : V) (m : Map K V)
      → Valid j
      → Valid k
      → IsValidMap m
      → find less j (assign less k v m) ≡ (if same less k j then some v else find less j m)
  unfolding find assign
  find-assign j k v [] hj hk hm = ground arith
  find-assign j k v ((i, u) ∷ m) hj hk hm = ground (
    arith,
    find-assign j k v m hj hk hm.1,
    order.transitive j k i hj hk hm.0,
    order.transitive i j k hm.0 hj hk,
    order.alike i k j hm.0 hk hj,
    order.alike k j i hk hj hm.0,
  )

  -- `m.insert(…)` does so where nothing was found there.
  pub find-insert :
      (j k : K) (v : V) (m : Map K V)
      → Valid j
      → Valid k
      → IsValidMap m
      → find less j (insert less k v m)
        ≡ (if same less k j then some (at_or less v j m) else find less j m)
  unfolding find insert
  find-insert j k v [] hj hk hm = ground arith
  find-insert j k v ((i, u) ∷ m) hj hk hm = ground (
    arith,
    find-insert j k v m hj hk hm.1,
    order.transitive j k i hj hk hm.0,
    order.transitive i j k hm.0 hj hk,
    order.alike i k j hm.0 hk hj,
    order.alike k j i hk hj hm.0,
  )

  -- Two keys at one place find the same.
  pub find-same :
      (j k : K) (m : Map K V)
      → Valid j
      → Valid k
      → IsValidMap m
      → same less j k ≡ true
      → find less j m ≡ find less k m
  unfolding find
  find-same j k [] hj hk hm h = refl
  find-same j k ((i, u) ∷ m) hj hk hm h =
      ground (arith, find-same j k m hj hk hm.1 h, order.alike j k i hj hk hm.0)
