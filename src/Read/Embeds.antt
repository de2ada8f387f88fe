-- ===== src/Read/Embeds.antt =====
-- The walk of `read_impl` (src/proxy.cpp) along embedded objects.
use mathlib.Core.List.{append_assoc}
use libelliptics_proxy.Base.{
  ℕ, zero, suc, ◌+◌, ◌-◌, ◌%◌, ◌≤◌, ◌<◌, ◌≡◌, ◌≢◌, refl, subst, ap, ◌∙◌, Bool, true, false, ◌==◌,
  List, [], ◌∷◌, ◌++◌, arith, ltb, word, Bytes, length, take, length-append, take-append,
  drop-append, take_all, le→ltb_false, All, if◌then◌else◌,
}
use libelliptics_proxy.Result.{ok, undefined}
use libelliptics_proxy.Text.{substr}
use libelliptics_proxy.Proxy.{External, Embed}
use libelliptics_proxy.Read.{
  embed_data, embed_size, npos, convert_embedded, embed_loop, read_embedded,
}

-- An object: its header and its body.
pub record Object : Type 0 where
  pub head : Bytes
  pub body : Bytes

abbrev pub pack : List Object → Bytes → Bytes
pack [] rest = rest
pack (o ∷ os) rest = o.head ++ (o.body ++ pack os rest)

if_same : {A : Type 0} (b : Bool) (a : A) → (if b then a else a) ≡ a
if_same true a = refl
if_same false a = refl

length-pack :
    (os : List Object) (rest more : Bytes)
    → length (pack os (rest ++ more)) ≡ length (pack os rest) + length more
length-pack [] rest more = length-append rest more
length-pack (o ∷ os) rest more = omega (
  arith,
  length-append o.head (o.body ++ pack os (rest ++ more)),
  length-append o.body (pack os (rest ++ more)),
  length-append o.head (o.body ++ pack os rest),
  length-append o.body (pack os rest),
  length-pack os rest more,
)

pack-append : (os : List Object) (rest more : Bytes) → pack os (rest ++ more) ≡ pack os rest ++ more
pack-append [] rest more = refl
pack-append (o ∷ os) rest more = simp (pack-append os rest more, append_assoc)

length-le-pack : (os : List Object) (rest : Bytes) → length rest ≤ length (pack os rest)
length-le-pack [] rest = omega arith
length-le-pack (o ∷ os) rest = omega (
  arith,
  length-append o.head (o.body ++ pack os rest),
  length-append o.body (pack os rest),
  length-le-pack os rest,
)

module _ (x : External) where
  -- A whole header, whose size is that of the body.
  pub record IsObject (o : Object) : Type 0 where
    pub whole : length o.head ≡ embed_size
    pub sized : (x.read_embed o.head).size ≡ length o.body

  abbrev pub IsOther : Object → Type 0
  IsOther o = IsObject o × ((x.read_embed o.head).type ≢ embed_data)

  objects_below :
      (os : List Object) (rest : Bytes) → All IsOther os → length os ≤ length (pack os rest)
  objects_below [] rest h = omega arith
  objects_below (o ∷ os) rest (v, h) = omega (
    arith,
    v.0.whole,
    length-append o.head (o.body ++ pack os rest),
    length-append o.body (pack os rest),
    objects_below os rest h,
  )

  -- The header that stands behind what comes before it.
  convert_at :
      (front head rest : Bytes)
      → length head ≡ embed_size
      → convert_embedded x (front ++ (head ++ rest)) (length front) ≡ ok (x.read_embed head)
  unfolding convert_embedded
  convert_at front head rest h =
      let size : length front + embed_size ≤ length (front ++ (head ++ rest)) =
        omega (arith, h, length-append front (head ++ rest), length-append head rest) in
      rw
        (
          le→ltb_false (length (front ++ (head ++ rest))) (length front + embed_size) size,
          drop-append front (head ++ rest),
        )
        (subst (λ n. ok (x.read_embed (take n (head ++ rest))) ≡ ok (x.read_embed head)) h
          (ap (λ t. ok (x.read_embed t)) (take-append head rest)))

  -- One object that is not the data, with at least a header behind it, is passed over.
  skip_object :
      (fuel : ℕ) (result : Bytes) (size offset : ℕ) (e : Embed)
      → convert_embedded x result offset ≡ ok e
      → e.size + embed_size + embed_size ≤ size
      → e.type ≢ embed_data
      → size < word
      → offset + embed_size + e.size < word
      → embed_loop x undefined (suc fuel) result size offset
        ≡ embed_loop x undefined fuel result
            (size - embed_size - e.size)
            (offset + embed_size + e.size)
  unfolding embed_loop
  skip_object fuel result size offset e h enough other small inside =
      let some : (size == 0) ≡ false = ground arith in
      let header : ltb size embed_size ≡ false = ground arith in
      let left : (size + word - embed_size) % word ≡ size - embed_size = omega arith in
      let need : (e.size + embed_size) % word ≡ e.size + embed_size = omega arith in
      let fits : ltb (size - embed_size) (e.size + embed_size) ≡ false = ground arith in
      let kind : (e.type == embed_data) ≡ false = ground arith in
      let behind : (offset + embed_size) % word ≡ offset + embed_size = omega arith in
      let moved : (offset + embed_size + e.size) % word ≡ offset + embed_size + e.size =
        omega arith in
      let less : (size - embed_size + word - e.size) % word ≡ size - embed_size - e.size =
        omega arith in
      rw (some, h, header, left, need, fits, kind, behind, moved, less) refl

  -- The data ends the walk, whether or not its body is long enough.
  end_at_data :
      (fuel : ℕ) (result : Bytes) (size offset : ℕ) (e : Embed)
      → convert_embedded x result offset ≡ ok e
      → embed_size ≤ size
      → e.type ≡ embed_data
      → offset + embed_size < word
      → embed_loop x undefined (suc fuel) result size offset ≡ ok (offset + embed_size)
  unfolding embed_loop
  end_at_data fuel result size offset e h enough kind inside =
      let some : (size == 0) ≡ false = ground arith in
      let header : ltb size embed_size ≡ false = ground arith in
      let test : (e.type == embed_data) ≡ true = ground arith in
      let behind : (offset + embed_size) % word ≡ offset + embed_size = omega arith in
      rw (some, h, header, behind, test) (if_same _ _)

  -- Objects that are not the data, the header of the data, and the data.
  walk :
      (fuel : ℕ) (os : List Object) (front head body : Bytes)
      → All IsOther os
      → length head ≡ embed_size
      → (x.read_embed head).type ≡ embed_data
      → length os < fuel
      → length (front ++ pack os (head ++ body)) < word
      → embed_loop x undefined fuel
          (front ++ pack os (head ++ body))
          (length (pack os (head ++ body)))
          (length front)
        ≡ ok (length front + length (pack os head))
  walk zero os front head body others whole kind enough small = absurd (omega arith)
  walk (suc fuel) [] front head body others whole kind enough small =
      let sizes = length-append front (head ++ body) in
      let sizes' = length-append head body in
      end_at_data fuel (front ++ (head ++ body)) _ _ (x.read_embed head)
        (convert_at front head body whole) (omega (arith, sizes', whole)) kind
        (omega (arith, sizes, sizes', whole))
      ∙ rw whole refl
  walk (suc fuel) (o ∷ os) front head body (v, others) whole kind enough small =
      let rest = pack os (head ++ body) in
      let esize = (x.read_embed o.head).size in
      let all = length-append front (o.head ++ (o.body ++ rest)) in
      let outer = length-append o.head (o.body ++ rest) in
      let inner = length-append o.body rest in
      let front' = front ++ (o.head ++ o.body) in
      let fronts = length-append front (o.head ++ o.body) in
      let own = length-append o.head o.body in
      let header = length-le-pack os (head ++ body) in
      let ends = length-append head body in
      let left : length (o.head ++ (o.body ++ rest)) - embed_size - esize ≡ length rest =
        omega (arith, outer, inner, v.0.whole, v.0.sized) in
      let moved : length front + embed_size + esize ≡ length front' =
        omega (arith, fronts, own, v.0.whole, v.0.sized) in
      let regroup : front ++ (o.head ++ (o.body ++ rest)) ≡ front' ++ rest = simp append_assoc in
      let further =
        walk fuel os front' head body others whole kind (omega arith)
          (omega (arith, ap length regroup)) in
      let total : length front' + length (pack os head)
          ≡ length front + length (pack (o ∷ os) head) =
        omega (
          arith,
          fronts,
          own,
          length-append o.head (o.body ++ pack os head),
          length-append o.body (pack os head),
        ) in
      skip_object fuel (front ++ (o.head ++ (o.body ++ rest))) (length (o.head ++ (o.body ++ rest)))
        (length front) (x.read_embed o.head) (convert_at front o.head (o.body ++ rest) v.0.whole)
        (omega (arith, outer, inner, v.0.whole, v.0.sized, header, ends, whole)) v.1
        (omega (arith, all)) (omega (arith, all, outer, inner, v.0.whole, v.0.sized))
      ∙ rw (left, moved, regroup) (further ∙ ap ok total)

  -- Where whole objects of other kinds, each as long as its header states, stand in front of the
  -- header of the data, what is read with `embeded` from a text shorter than 2 ^ 64 is all that
  -- follows that header, up to the end of the text: the size it states is not looked at.
  pub read_embedded-pack :
      (os : List Object) (head body : Bytes)
      → All IsOther os
      → length head ≡ embed_size
      → (x.read_embed head).type ≡ embed_data
      → length (pack os (head ++ body)) < word
      → read_embedded x (pack os (head ++ body)) ≡ ok body
  unfolding read_embedded substr
  read_embedded-pack os head body others whole kind small =
      let text = pack os (head ++ body) in
      let sizes = length-pack os head body in
      let found =
        walk (suc (length text)) os [] head body others whole kind
          (omega (arith, objects_below os (head ++ body) others)) small in
      let start : 0 + length (pack os head) ≡ length (pack os head) = omega arith in
      let inside : length (pack os head) ≤ length text = omega (arith, sizes) in
      rw
        (
          read_embedded,
          found,
          start,
          le→ltb_false (length text) (length (pack os head)) inside,
          pack-append os head body,
          drop-append (pack os head) body,
        )
        (ap ok (take_all npos body (omega (arith, sizes))))
