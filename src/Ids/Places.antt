-- ===== src/Ids/Places.antt =====
-- The orders of the maps of src/proxy.cpp: `Key` and `ID` by `operator<` (src/util.cpp), and
-- `struct dnet_id` by `dnet_id_less`.
use libelliptics_proxy.Base.{
  ℕ, ◌≡◌, refl, true, arith, eqb_bytes_self, eqb_bytes→eq, eqb_ℤ→eq, eqb_ℤ_self, Bool-cases, inl,
  inr,
}
use libelliptics_proxy.OrderedMap.Order.{IsOrder, same}
use libelliptics_proxy.Ids.{
  DnetId, KeyId, Key, id_eq, id_less, key_eq, key_less, dnet_id_less, id_of,
}
use libelliptics_proxy.Ids.Compare.{memcmp_self, memcmp_sign, memcmp_zero}
use libelliptics_proxy.Ids.Order.{
  IsWellFormed, IsValidId, IsValidKey, id_less_trans, id_less_equiv, key_less_trans, key_less_equiv,
}

module _ (id_size : ℕ) where
  id_eq_self : (a : KeyId) → id_eq id_size a a ≡ true
  unfolding id_eq
  id_eq_self a = rw (memcmp_self id_size a.id.id, eqb_ℤ_self a.id.type) refl

  id_eq-parts :
      (a b : KeyId)
      → IsValidId id_size a
      → IsValidId id_size b
      → id_eq id_size a b ≡ true
      → (a.id.id ≡ b.id.id) × (a.id.type ≡ b.id.type)
  unfolding id_eq
  id_eq-parts a b u v h = (
    memcmp_zero id_size a.id.id b.id.id u.sized v.sized
        (ground (arith, memcmp_sign id_size a.id.id b.id.id)),
    eqb_ℤ→eq a.id.type b.id.type (ground arith),
  )

  id_less-alike :
      (a b c : KeyId)
      → a.id.id ≡ b.id.id
      → a.id.type ≡ b.id.type
      → (id_less id_size a c ≡ id_less id_size b c) × (id_less id_size c a ≡ id_less id_size c b)
  unfolding id_less
  id_less-alike a b c e d = (rw (e, d) refl, rw (e, d) refl)

  -- `ID::operator<` orders the identifiers.
  pub id-IsOrder : IsOrder (IsValidId id_size) (id_less id_size)
  id-IsOrder = record {
    irreflexive = λ a u. ((id_less_equiv id_size a a u u).1 (id_eq_self a)).0;
    transitive = λ a b c u v w. id_less_trans id_size a b c u v w;
    alike = λ a b c u v w h k.
        let parts = id_eq-parts a b u v ((id_less_equiv id_size a b u v).0 (h, k)) in
        id_less-alike a b c parts.0 parts.1;
  }

  dnet_id_less-id_of :
      (a b : DnetId) → id_less id_size (id_of a) (id_of b) ≡ dnet_id_less id_size a b
  unfolding id_less dnet_id_less id_of
  dnet_id_less-id_of a b = refl

  -- `dnet_id_less` does so, too.
  pub dnet_id-IsOrder : IsOrder (IsWellFormed id_size) (dnet_id_less id_size)
  unfolding dnet_id_less id_less id_of
  dnet_id-IsOrder = record {
    irreflexive = λ a u. id-IsOrder.irreflexive (id_of a) u;
    transitive = λ a b c u v w. id-IsOrder.transitive (id_of a) (id_of b) (id_of c) u v w;
    alike = λ a b c u v w. id-IsOrder.alike (id_of a) (id_of b) (id_of c) u v w;
  }

  key_eq_self : (a : Key) → key_eq id_size a a ≡ true
  unfolding key_eq
  key_eq_self a = elim (Bool-cases a.by_id) [
    | inl e ↦ rw e (id_eq_self a.id)
    | inr e ↦ rw e (eqb_bytes_self a.filename)
  ]

  key_less-alike :
      (a b c : Key)
      → IsValidKey id_size a
      → IsValidKey id_size b
      → key_eq id_size a b ≡ true
      → (key_less id_size a c ≡ key_less id_size b c)
        × (key_less id_size c a ≡ key_less id_size c b)
  unfolding key_eq key_less
  key_less-alike a b c u v h = elim (Bool-cases a.by_id) [
    | inl p ↦ elim (Bool-cases b.by_id) [
      | inl q ↦
          let parts = id_eq-parts a.id b.id (u p) (v q) (ground arith) in
          let like = id_less-alike a.id b.id c.id parts.0 parts.1 in ground arith
      | inr q ↦ ground arith
    ]
    | inr p ↦ elim (Bool-cases b.by_id) [
      | inl q ↦ ground arith
      | inr q ↦
          let e : a.filename ≡ b.filename = eqb_bytes→eq a.filename b.filename (ground arith) in
          rw (p, q, e) (refl, refl)
    ]
  ]

  -- `Key::operator<` orders the keys.
  pub key-IsOrder : IsOrder (IsValidKey id_size) (key_less id_size)
  key-IsOrder = record {
    irreflexive = λ a u. ((key_less_equiv id_size a a u u).1 (key_eq_self a)).0;
    transitive = λ a b c u v w. key_less_trans id_size a b c u v w;
    alike = λ a b c u v w h k. key_less-alike a b c u v ((key_less_equiv id_size a b u v).0 (h, k));
  }

  -- Two keys at one place are equal by `operator==`, and the other way round.
  pub same-key_eq :
      (a b : Key)
      → IsValidKey id_size a
      → IsValidKey id_size b
      → same (key_less id_size) a b ≡ key_eq id_size a b
  same-key_eq a b u v = ground (arith, key_less_equiv id_size a b u v)
