-- ===== src/Bulk/Records.antt =====
-- The records of a bulk read's answer (src/proxy.cpp, lines 783-813).
use libelliptics_proxy.Base.{
  ℕ, ◌+◌, ◌-◌, ◌≡◌, ◌≢◌, ap, subst, sym, ℤ, pos, true, false, not, ◌++◌, arith, ltb, ◌==◌, Bytes,
  length, take, drop, length-append, take-append, drop-append, drop_add-append, take_all,
  le→ltb_false, if◌then◌else◌,
}
use libelliptics_proxy.Result.{Result, ok, throw, runtime_error, small_record}
use libelliptics_proxy.Ids.{KeyId, id_of}
use libelliptics_proxy.Proxy.{External}
use libelliptics_proxy.Bulk.{read_record}

-- The two tests on the lengths, as numbers.
refuse :
    (len n size : ℕ) (answer : Result (KeyId × Bytes))
    → len ≢ n + 8 + size
    → (if ltb len (n + 8)
        then throw (runtime_error small_record)
        else if not (size == len - n - 8)
        then throw (runtime_error small_record)
        else answer)
      ≡ throw (runtime_error small_record)
refuse len n size answer h = ground arith

module _ (x : External) (garbage : ℤ) where
  -- An identifier of the right length, eight bytes that hold the size of the data, and the data
  -- make a record from which the identifier and the data are read back.
  pub read_record-append :
      (id size_bytes bytes : Bytes)
      → length id ≡ x.platform.id_size
      → length size_bytes ≡ 8
      → x.read_u64 size_bytes ≡ length bytes
      → read_record x garbage (id ++ (size_bytes ++ bytes))
        ≡ ok (id_of (record { id = id; group_id = pos 0; type = pos 0 }), bytes)
  unfolding read_record
  read_record-append id size_bytes bytes h h8 sized =
      let r = id ++ (size_bytes ++ bytes) in
      let whole : length r ≡ length id + 8 + length bytes =
        omega (arith, length-append id (size_bytes ++ bytes), length-append size_bytes bytes, h8) in
      let eight : take 8 (size_bytes ++ bytes) ≡ size_bytes =
        subst (λ n. take n (size_bytes ++ bytes) ≡ size_bytes) h8 (take-append size_bytes bytes) in
      let behind : drop 8 (size_bytes ++ bytes) ≡ bytes =
        subst (λ n. drop n (size_bytes ++ bytes) ≡ bytes) h8 (drop-append size_bytes bytes) in
      let framed : ltb (length r) (length id + 8) ≡ false =
        le→ltb_false (length r) (length id + 8) (omega (arith, whole)) in
      let exact : (length bytes == length r - length id - 8) ≡ true = ground (arith, whole) in
      rw
        (
          sym h,
          drop-append id (size_bytes ++ bytes),
          eight,
          sized,
          framed,
          exact,
          take-append id (size_bytes ++ bytes),
          drop_add-append id (size_bytes ++ bytes) 8,
          behind,
        )
        (ap (λ t. ok (id_of (record { id = id; group_id = pos 0; type = pos 0 }), t))
          (take_all (length bytes) bytes (omega arith)))

  -- A record that is shorter than its frame, or whose data has not the size it states, is refused.
  pub read_record_refused :
      (r : Bytes)
      → length r ≢ x.platform.id_size + 8 + x.read_u64 (take 8 (drop x.platform.id_size r))
      → read_record x garbage r ≡ throw (runtime_error small_record)
  unfolding read_record
  read_record_refused r h =
      refuse (length r) x.platform.id_size (x.read_u64 (take 8 (drop x.platform.id_size r))) _ h
