-- ===== src/Ids/Order.antt =====
-- The order of `ID` and `Key` (src/util.cpp) and their equality.
use libelliptics_proxy.Base.{
  ℕ, ◌<◌, ◌^◌, ◌≡◌, ◌∙◌, ◌↔◌, ◌⊎◌, inl, inr, pos, negsuc, true, false, arith, Bytes, ltb_ℤ, sub_int,
  length, eqb_bytes, eqb_bytes→eq, Bool-cases,
}
use libelliptics_proxy.Ids.{
  DnetId, KeyId, Key, memcmp, bytes_less, id_eq, id_less, key_eq, key_less,
}
use libelliptics_proxy.Ids.Compare.{
  memcmp_flip, memcmp_sign, memcmp_self, memcmp_zero, memcmp_trans, sub_int_sign, bytes_less_self,
  bytes_less_trans, bytes_less_total,
}

-- The whole array of bytes, and a type that is not negative.
pub record IsWellFormed (id_size : ℕ) (a : DnetId) : Type 0 where
  pub sized : length a.id ≡ id_size
  pub column : ℕ
  pub typed : a.type ≡ pos column
  pub small : column < 2 ^ 31

module _ (id_size : ℕ) where
  abbrev pub IsValidId : KeyId → Type 0
  IsValidId a = IsWellFormed id_size a.id

  -- A key by name is valid, one by identifier if its identifier is.
  abbrev pub IsValidKey : Key → Type 0
  IsValidKey k = k.by_id ≡ true → IsValidId k.id

  -- What the comparison of the types says where the bytes agree.
  type_less :
      (a b : KeyId) (v : IsValidId a) (w : IsValidId b)
      → ltb_ℤ (sub_int a.id.type b.id.type) (pos 0) ≡ ltb_ℤ (pos v.column) (pos w.column)
  type_less a b v w = rw (v.typed, w.typed) (sub_int_sign v.column w.column v.small w.small)

  -- Less by the bytes, or by the type where these agree.
  abbrev Precedes : (a b : KeyId) → IsValidId a → IsValidId b → Type 0
  Precedes a b v w =
      (memcmp id_size a.id.id b.id.id ≡ negsuc 0) ⊎ ((a.id.id ≡ b.id.id) × (v.column < w.column))

  id_less→Precedes :
      (a b : KeyId) (v : IsValidId a) (w : IsValidId b)
      → id_less id_size a b ≡ true
      → Precedes a b v w
  unfolding id_less
  id_less→Precedes a b v w h = ground (
    arith,
    type_less a b v w,
    memcmp_sign id_size a.id.id b.id.id,
    memcmp_zero id_size a.id.id b.id.id v.sized w.sized,
  )

  Precedes→id_less :
      (a b : KeyId) (v : IsValidId a) (w : IsValidId b)
      → Precedes a b v w
      → id_less id_size a b ≡ true
  unfolding id_less
  Precedes→id_less a b v w (inl h) = rw h
  Precedes→id_less a b v w (inr (e, h)) =
      rw (e, memcmp_self id_size b.id.id) (ground (arith, type_less a b v w))

  Precedes-trans :
      (a b c : KeyId) (u : IsValidId a) (v : IsValidId b) (w : IsValidId c)
      → Precedes a b u v
      → Precedes b c v w
      → Precedes a c u w
  Precedes-trans a b c u v w (inl h) (inl k) =
      inl (memcmp_trans id_size a.id.id b.id.id c.id.id u.sized v.sized w.sized h k)
  Precedes-trans a b c u v w (inl h) (inr (e, k)) = inl (rw (← e) h)
  Precedes-trans a b c u v w (inr (d, h)) (inl k) = inl (rw d k)
  Precedes-trans a b c u v w (inr (d, h)) (inr (e, k)) = inr (d ∙ e, omega arith)

  pub id_less_trans :
      (a b c : KeyId)
      → IsValidId a
      → IsValidId b
      → IsValidId c
      → id_less id_size a b ≡ true
      → id_less id_size b c ≡ true
      → id_less id_size a c ≡ true
  id_less_trans a b c u v w h k =
      Precedes→id_less a c u w
        (Precedes-trans a b c u v w (id_less→Precedes a b u v h) (id_less→Precedes b c v w k))

  pub id_less_equiv :
      (a b : KeyId)
      → IsValidId a
      → IsValidId b
      → ((id_less id_size a b ≡ false) × (id_less id_size b a ≡ false)) ↔ (id_eq id_size a b ≡ true)
  unfolding id_less id_eq
  id_less_equiv a b u v = ground (
    arith,
    u.typed,
    v.typed,
    type_less a b u v,
    type_less b a v u,
    memcmp_sign id_size a.id.id b.id.id,
    memcmp_flip id_size a.id.id b.id.id,
  )

  -- A valid key below a second one that lies below a third lies below the third, in the order
  -- that `std::map<Key, …>` uses: identifiers first, then file names.
  pub key_less_trans :
      (a b c : Key)
      → IsValidKey a
      → IsValidKey b
      → IsValidKey c
      → key_less id_size a b ≡ true
      → key_less id_size b c ≡ true
      → key_less id_size a c ≡ true
  unfolding key_less
  key_less_trans a b c u v w h k = ground (
    arith,
    bytes_less_trans a.filename b.filename c.filename,
    λ (p : a.by_id ≡ true) (q : b.by_id ≡ true) (r : c.by_id ≡ true).
        id_less_trans a.id b.id c.id (u p) (v q) (w r),
  )

  -- Of two valid keys neither is less than the other exactly if they are equal by `operator==`,
  -- so that they share an entry of a map.
  pub key_less_equiv :
      (a b : Key)
      → IsValidKey a
      → IsValidKey b
      → ((key_less id_size a b ≡ false) × (key_less id_size b a ≡ false))
        ↔ (key_eq id_size a b ≡ true)
  unfolding key_less key_eq
  key_less_equiv a b u v = elim (Bool-cases a.by_id) [
    | inl p ↦ elim (Bool-cases b.by_id) [
      | inl q ↦ rw (p, q) (id_less_equiv a.id b.id (u p) (v q))
      | inr q ↦ rw (p, q) (ground arith)
    ]
    | inr p ↦ elim (Bool-cases b.by_id) [
      | inl q ↦ rw (p, q) (ground arith)
      | inr q ↦ rw (p, q) (names a.filename b.filename)
    ]
  ]
    where
      names :
          (x y : Bytes)
          → ((bytes_less x y ≡ false) × (bytes_less y x ≡ false)) ↔ (eqb_bytes x y ≡ true)
      names x y = (
        λ h. bytes_less_total x y h.0 h.1,
        λ e. (
          rw (eqb_bytes→eq x y e) (bytes_less_self y),
          rw (eqb_bytes→eq x y e) (bytes_less_self y),
        ),
      )
