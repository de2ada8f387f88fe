-- ===== src/Lookup/Parse.antt =====
-- `parse_lookup` (src/proxy.cpp) on answers that are well formed, and on one that is cut short.
use libelliptics_proxy.Base.{
  ℕ, zero, suc, ◌+◌, ◌-◌, ◌%◌, ◌≤◌, ◌<◌, ◌≡◌, refl, subst, ap, ◌∙◌, ℤ, Bool, List, [], ◌∷◌, ◌++◌,
  arith, word, Bytes, length, take, drop, All, take-append, drop-append, drop_add-append,
  length-append, length-drop, le→ltb_false, lt→ltb,
}
use libelliptics_proxy.Result.{Result, ok, undefined, ◌>>=◌}
use libelliptics_proxy.Text.{c_string, Lacks}
use libelliptics_proxy.Lookup.{
  Platform, LookupResult, min_size, make_result, parse_one, parse_loop, parse_lookup,
}

-- One record of an answer: the structures, the path with its NUL, and what pads it.
pub record Entry : Type 0 where
  pub head : Bytes
  pub name : Bytes
  pub pad : Bytes

abbrev pub encode : List Entry → Bytes
encode [] = []
encode (e ∷ es) = e.head ++ (e.name ++ (0 ∷ (e.pad ++ encode es)))

pub c_string_name : (name rest : Bytes) → Lacks 0 name → c_string (name ++ (0 ∷ rest)) ≡ name
unfolding c_string
c_string_name [] rest h = refl
c_string_name (zero ∷ name) rest h = absurd (ground arith)
c_string_name (suc n ∷ name) rest h = ap (◌∷◌ (suc n)) (c_string_name name rest h.1)

module _ (p : Platform) (base_port : ℤ) (eblob_style_path : Bool) where
  -- The structures are whole, and `flen` counts the path with its NUL and the padding.
  pub record IsEntry (e : Entry) : Type 0 where
    pub whole : length e.head ≡ min_size p
    pub counted : (p.header e.head).flen ≡ length e.name + 1 + length e.pad
    pub no_nul : Lacks 0 e.name

  -- What the proxy makes of a record.
  abbrev pub read_entry : Entry → Result LookupResult
  read_entry e =
      let info = p.header e.head in
      make_result p base_port eblob_style_path info e.name (p.getnameinfo info.addr)

  -- The records one by one, up to the first whose address does not resolve.
  abbrev pub read_entries : List Entry → Result (List LookupResult)
  read_entries [] = ok []
  read_entries (e ∷ es) = do result ← read_entry e; ret ← read_entries es; ok (result ∷ ret)

  take_head : (e : Entry) (rest : Bytes) → IsEntry e → take (min_size p) (e.head ++ rest) ≡ e.head
  take_head e rest v =
      subst (λ n. take n (e.head ++ rest) ≡ e.head) v.whole (take-append e.head rest)

  drop_head : (e : Entry) (rest : Bytes) → IsEntry e → drop (min_size p) (e.head ++ rest) ≡ rest
  drop_head e rest v = subst (λ n. drop n (e.head ++ rest) ≡ rest) v.whole (drop-append e.head rest)

  parse_one_entry :
      (e : Entry) (rest : Bytes)
      → IsEntry e
      → parse_one p base_port eblob_style_path (e.head ++ (e.name ++ (0 ∷ rest))) ≡ read_entry e
  unfolding parse_one
  parse_one_entry e rest v =
      rw
        (
          parse_one,
          take_head e (e.name ++ (0 ∷ rest)) v,
          drop_head e (e.name ++ (0 ∷ rest)) v,
          c_string_name e.name rest v.no_nul,
        )
        refl

  -- The step of the pointer leads to the next record.
  drop_entry :
      (e : Entry) (rest : Bytes)
      → IsEntry e
      → drop (min_size p + (p.header e.head).flen) (e.head ++ (e.name ++ (0 ∷ (e.pad ++ rest))))
        ≡ rest
  drop_entry e rest v =
      rw
        (
          sizes,
          drop_add-append e.head (e.name ++ (0 ∷ (e.pad ++ rest))) _,
          drop_add-append e.name (0 ∷ (e.pad ++ rest)) _,
        )
        (drop-append e.pad rest)
    where
      sizes :
          min_size p + (p.header e.head).flen ≡ length e.head + (length e.name + suc (length e.pad))
      sizes = omega (arith, v.whole, v.counted)

  length-encode :
      (e : Entry) (es : List Entry)
      → IsEntry e
      → length (encode (e ∷ es)) ≡ min_size p + (p.header e.head).flen + length (encode es)
  length-encode e es v = omega (
    arith,
    v.whole,
    v.counted,
    length-append e.head (e.name ++ (0 ∷ (e.pad ++ encode es))),
    length-append e.name (0 ∷ (e.pad ++ encode es)),
    length-append e.pad (encode es),
  )

  -- A result in front of those of the rest.
  abbrev pub before : Result LookupResult → Result (List LookupResult) → Result (List LookupResult)
  before r rs = do result ← r; ret ← rs; ok (result ∷ ret)

  -- A round whose header lies within the buffer.
  pub parse_loop_step :
      (fuel : ℕ) (bytes : Bytes) (size : ℕ)
      → min_size p < size
      → min_size p ≤ length bytes
      → let step = (min_size p + (p.header (take (min_size p) bytes)).flen) % word in
        parse_loop p undefined (suc fuel) base_port eblob_style_path bytes size
        ≡ before (parse_one p base_port eblob_style_path bytes) (
            parse_loop p undefined fuel base_port eblob_style_path
              (drop step bytes)
              ((size + word - step) % word))
  unfolding parse_loop
  parse_loop_step fuel bytes size h k =
      rw (lt→ltb (min_size p) size h, le→ltb_false (length bytes) (min_size p) k) refl

  entry_round :
      (fuel : ℕ) (e : Entry) (es : List Entry)
      → IsEntry e
      → length (encode (e ∷ es)) < word
      → parse_loop p undefined
          (suc fuel)
          base_port
          eblob_style_path
          (encode (e ∷ es))
          (length (encode (e ∷ es)))
        ≡ before (read_entry e) (
            parse_loop p undefined fuel base_port eblob_style_path (encode es) (length (encode es)))
  entry_round fuel e es v small =
      let sizes = length-encode e es v in
      let step = min_size p + (p.header e.head).flen in
      let whole : step % word ≡ step = omega (arith, sizes, small) in
      let left : (length (encode (e ∷ es)) + word - step) % word ≡ length (encode es) =
        omega (arith, sizes) in
      parse_loop_step fuel (encode (e ∷ es)) (length (encode (e ∷ es)))
        (omega (arith, sizes, v.counted)) (omega (arith, sizes))
      ∙ rw (take_head e _ v, whole, drop_entry e (encode es) v, parse_one_entry e _ v, left) refl

  parse_loop_entries :
      (fuel : ℕ) (es : List Entry)
      → All IsEntry es
      → length (encode es) < fuel
      → length (encode es) < word
      → parse_loop p undefined fuel base_port eblob_style_path (encode es) (length (encode es))
        ≡ read_entries es
  unfolding parse_loop
  parse_loop_entries zero es vs enough small = absurd (omega arith)
  parse_loop_entries (suc fuel) [] vs enough small = rw (le→ltb_false (min_size p) 0 (omega arith))
  parse_loop_entries (suc fuel) (e ∷ es) vs enough small =
      let sizes = length-encode e es vs.0 in
      let rest =
        parse_loop_entries fuel es vs.1 (omega (arith, sizes, vs.0.counted))
          (omega (arith, sizes)) in
      entry_round fuel e es vs.0 small ∙ ap (before (read_entry e)) rest

  -- An answer shorter than 2 ^ 64 that consists of whole records is parsed record by record, up to
  -- the first whose address does not resolve, and the length of the answer is fuel enough.
  pub parse_lookup-encode :
      (es : List Entry)
      → All IsEntry es
      → length (encode es) < word
      → parse_lookup p base_port eblob_style_path (encode es) ≡ read_entries es
  unfolding parse_lookup
  parse_lookup-encode es vs small =
      parse_loop_entries (suc (length (encode es))) es vs (omega arith) small

  parse_loop_outside :
      (fuel : ℕ) (bytes : Bytes) (size : ℕ)
      → min_size p < size
      → length bytes < min_size p
      → parse_loop p undefined fuel base_port eblob_style_path bytes size ≡ undefined
  unfolding parse_loop
  parse_loop_outside zero bytes size h k = refl
  parse_loop_outside (suc fuel) bytes size h k =
      rw (lt→ltb (min_size p) size h, lt→ltb (length bytes) (min_size p) k) refl

  -- An answer longer than the structures of a record, whose first record claims to be longer than
  -- the answer, but not so long that twice the structures with it pass 2 ^ 64, is read past its
  -- end, once the address has resolved: the counter of the loop wraps around.
  pub parse_lookup_overrun :
      (bytes : Bytes) (result : LookupResult)
      → let flen = (p.header (take (min_size p) bytes)).flen in
        0 < min_size p
        → min_size p < length bytes
        → length bytes < min_size p + flen
        → min_size p + min_size p + flen < word
        → parse_one p base_port eblob_style_path bytes ≡ ok result
        → parse_lookup p base_port eblob_style_path bytes ≡ undefined
  unfolding parse_lookup
  parse_lookup_overrun bytes result pos h k small one =
      let step = min_size p + (p.header (take (min_size p) bytes)).flen in
      let whole : step % word ≡ step = omega (arith, small) in
      let outside =
        parse_loop_outside (length bytes) (drop step bytes) ((length bytes + word - step) % word)
          (omega arith) (omega (arith, length-drop step bytes)) in
      parse_loop_step (length bytes) bytes (length bytes) h (omega arith)
      ∙ rw (whole, one, outside) refl
