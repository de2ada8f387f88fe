-- ===== src/Ids/Conversion.antt =====
-- The conversion of a `Key` to the key of the elliptics library (src/util.cpp), and its equality.
use libelliptics_proxy.Base.{
  ℕ, ◌≡◌, refl, ap, ◌↔◌, Bool-cases, inl, inr, [], ℤ, pos, true, false, arith, Bytes, eqb_bytes,
  eqb_bytes_self, eqb_bytes→eq, eqb_ℤ_self, eqb_ℤ→eq, if◌then◌else◌,
}
use libelliptics_proxy.Ids.{DnetId, KeyId, Key, id_eq, key_eq, key_less}
use libelliptics_proxy.Ids.Compare.{memcmp_self, memcmp_sign, memcmp_zero}
use libelliptics_proxy.Ids.Order.{IsValidId, IsValidKey, key_less_equiv}

-- `ioremap::elliptics::key`: an identifier, or a name with a column.
pub data LibraryKey : Type 0 where
  by_identifier : DnetId → LibraryKey
  by_name : Bytes → ℤ → LibraryKey

-- `Key::operator ioremap::elliptics::key`.
unfoldable pub library_key : Key → LibraryKey
library_key key = if key.by_id then by_identifier key.id.id else by_name key.filename key.column

-- A key of the library without the column of a name and without the group of an identifier.
abbrev pub bare : LibraryKey → LibraryKey
bare (by_identifier id) = by_identifier (record id { group_id = pos 0 })
bare (by_name name column) = by_name name (pos 0)

abbrev bytes_of : LibraryKey → Bytes
bytes_of (by_identifier id) = id.id
bytes_of (by_name name column) = []

abbrev type_of : LibraryKey → ℤ
type_of (by_identifier id) = id.type
type_of (by_name name column) = pos 0

abbrev name_of : LibraryKey → Bytes
name_of (by_identifier id) = []
name_of (by_name name column) = name

module _ (id_size : ℕ) where
  id_eq-bare :
      (a b : KeyId)
      → IsValidId id_size a
      → IsValidId id_size b
      → (id_eq id_size a b ≡ true) ↔ (bare (by_identifier a.id) ≡ bare (by_identifier b.id))
  unfolding id_eq
  id_eq-bare a b u v = (forth, back)
    where
      forth : (id_eq id_size a b ≡ true) → bare (by_identifier a.id) ≡ bare (by_identifier b.id)
      forth h =
          let bytes =
            memcmp_zero id_size a.id.id b.id.id u.sized v.sized
              (ground (arith, h, memcmp_sign id_size a.id.id b.id.id)) in
          let types = eqb_ℤ→eq a.id.type b.id.type (ground (arith, h)) in rw (bytes, types) refl

      back : bare (by_identifier a.id) ≡ bare (by_identifier b.id) → id_eq id_size a b ≡ true
      back h =
          rw (ap bytes_of h, memcmp_self id_size b.id.id, ap type_of h, eqb_ℤ_self b.id.type) refl

  key_eq-bare :
      (a b : Key)
      → IsValidKey id_size a
      → IsValidKey id_size b
      → (key_eq id_size a b ≡ true) ↔ (bare (library_key a) ≡ bare (library_key b))
  unfolding key_eq library_key
  key_eq-bare a b u v = elim (Bool-cases a.by_id) [
    | inl p ↦ elim (Bool-cases b.by_id) [
      | inl q ↦ rw (p, q) (id_eq-bare a.id b.id (u p) (v q))
      | inr q ↦ rw (p, q) (ground arith)
    ]
    | inr p ↦ elim (Bool-cases b.by_id) [
      | inl q ↦ rw (p, q) (ground arith)
      | inr q ↦ rw (p, q) (names a.filename b.filename)
    ]
  ]
    where
      names : (m n : Bytes) → (eqb_bytes m n ≡ true) ↔ (by_name m (pos 0) ≡ by_name n (pos 0))
      names m n = (λ h. rw (eqb_bytes→eq m n h) refl, λ h. rw (ap name_of h) (eqb_bytes_self n))

  -- For valid keys: a `std::map` takes two keys for the same exactly if the keys that they stand for
  -- at the library agree in the name, or in the bytes and the type of the identifier. The column of a
  -- name and the group of an identifier do not count, though the library is handed them.
  pub key_less-library_key :
      (a b : Key)
      → IsValidKey id_size a
      → IsValidKey id_size b
      → ((key_less id_size a b ≡ false) × (key_less id_size b a ≡ false))
        ↔ (bare (library_key a) ≡ bare (library_key b))
  key_less-library_key a b u v =
      let order = key_less_equiv id_size a b u v in
      let eq = key_eq-bare a b u v in (λ h. eq.0 (order.0 h), λ h. order.1 (eq.1 h))
