-- ===== src/Ids.antt =====
-- Identifiers and keys: src/util.cpp (`ID`, `Key`) and the `dnet_id_less` of src/proxy.cpp.
-- `DNET_ID_SIZE` belongs to the elliptics headers and is the parameter `id_size`.
pub mod Compare
pub mod Order
pub mod Places
pub mod Conversion
use libelliptics_proxy.Base.{
  ℕ, zero, suc, ℤ, pos, negsuc, Bool, true, false, not, ◌&&◌, ◌==◌, if◌then◌else◌, ltb, ltb_ℤ,
  eqb_ℤ, sub_int, Bytes, [], ◌∷◌, eqb_bytes, replicate,
}

-- The fields of `struct dnet_id` that the proxy uses.
pub record DnetId : Type 0 where
  pub id : Bytes
  pub group_id : ℤ
  pub type : ℤ

-- `class ID`.
pub record KeyId : Type 0 where
  pub id : DnetId
  pub empty : Bool

pub record Key : Type 0 where
  pub by_id : Bool
  pub filename : Bytes
  pub column : ℤ
  pub id : KeyId

-- `memcmp`: the sign of the first difference among `n` bytes.
pub memcmp : ℕ → Bytes → Bytes → ℤ
memcmp zero xs ys = pos 0
memcmp (suc n) [] ys = pos 0
memcmp (suc n) (x ∷ xs) [] = pos 0
memcmp (suc n) (x ∷ xs) (y ∷ ys) =
    if x == y then memcmp n xs ys else if ltb x y then negsuc 0 else pos 1

-- `operator<` of `std::string`.
pub bytes_less : Bytes → Bytes → Bool
bytes_less xs [] = false
bytes_less [] (y ∷ ys) = true
bytes_less (x ∷ xs) (y ∷ ys) = if x == y then bytes_less xs ys else ltb x y

module _ (id_size : ℕ) where
  -- `memset(&id, 0, sizeof(id))`.
  unfoldable pub zero_id : DnetId
  zero_id = record { id = replicate id_size 0; group_id = pos 0; type = pos 0 }

  -- The comparison that `ID::operator<` and `dnet_id_less` both write out. The difference of the types
  -- is one of `int`s: where it overflows, which the source leaves undefined, it is wrapped here.
  -- `IsWellFormed` names identifiers among which it does not overflow.
  unfoldable pub dnet_id_less : DnetId → DnetId → Bool
  unfolding memcmp sub_int
  dnet_id_less a b =
      let res : ℤ = memcmp id_size a.id b.id in
      ltb_ℤ (if eqb_ℤ res (pos 0) then sub_int a.type b.type else res) (pos 0)

  unfoldable pub empty_id : KeyId
  unfolding zero_id
  empty_id = record { id = zero_id; empty = true }

  unfoldable pub id_eq : KeyId → KeyId → Bool
  unfolding memcmp
  id_eq a b = eqb_ℤ (memcmp id_size a.id.id b.id.id) (pos 0) && eqb_ℤ a.id.type b.id.type

  unfoldable pub id_less : KeyId → KeyId → Bool
  unfolding memcmp sub_int
  id_less a b =
      let res : ℤ = memcmp id_size a.id.id b.id.id in
      ltb_ℤ (if eqb_ℤ res (pos 0) then sub_int a.id.type b.id.type else res) (pos 0)

  -- `Key()` leaves `column_` as the memory holds it: the argument.
  unfoldable pub default_key : ℤ → Key
  unfolding empty_id
  default_key garbage = record { by_id = true; filename = []; column = garbage; id = empty_id }

  unfoldable pub key_of_filename : Bytes → ℤ → Key
  unfolding empty_id
  key_of_filename filename column = record {
    by_id = false;
    filename = filename;
    column = column;
    id = empty_id;
  }

  unfoldable pub key_eq : Key → Key → Bool
  unfolding id_eq
  key_eq a b =
      if not a.by_id && not b.by_id
      then eqb_bytes a.filename b.filename
      else if a.by_id && b.by_id
      then id_eq a.id b.id
      else false

  -- Identifiers come before file names.
  unfoldable pub key_less : Key → Key → Bool
  unfolding id_less bytes_less
  key_less a b =
      if a.by_id
      then (if b.by_id then id_less a.id b.id else true)
      else if not b.by_id
      then bytes_less a.filename b.filename
      else false

unfoldable pub id_of : DnetId → KeyId
id_of id = record { id = id; empty = false }

unfoldable pub key_of_id : KeyId → Key
key_of_id id = record { by_id = true; filename = []; column = id.id.type; id = id }
