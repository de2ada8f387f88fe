-- ===== src/Read/Fuel.antt =====
-- The loop of `read_impl` (src/proxy.cpp, lines 413-438) comes to its end where no size wraps around.
use libelliptics_proxy.Base.{
  ℕ, zero, suc, ◌+◌, ◌-◌, ◌%◌, ◌<◌, ◌≤◌, ◌≡◌, refl, ap, ◌==◌, Bytes, word, ltb, arith, Bool-cases,
  inl, inr, ltb_false→le, if◌then◌else◌,
}
use libelliptics_proxy.Result.{Result, ok, throw, undefined, runtime_error, invalid_embed}
use libelliptics_proxy.Proxy.{External, Embed}
use libelliptics_proxy.Read.{embed_data, embed_size, convert_embedded, embed_loop}

module _ (x : External) where
  -- No object of a text claims a size that wraps around with its header.
  abbrev pub Fits : Bytes → Type 0
  Fits result =
      (offset : ℕ) (e : Embed)
      → convert_embedded x result offset ≡ ok e
      → e.size + embed_size < word

  -- One round on an object, by what the rest of the loop gives.
  abbrev round : ℕ → ℕ → Embed → Result ℕ → Result ℕ
  round size offset e rest =
      let behind = (offset + embed_size) % word in
      let left = (size + word - embed_size) % word in
      if ltb size embed_size
      then throw (runtime_error invalid_embed)
      else if ltb left ((e.size + embed_size) % word)
      then ok behind
      else if e.type == embed_data
      then ok behind
      else rest

  -- The rest counts only where the object and the header behind it lie within the size.
  round_alike :
      (size offset : ℕ) (e : Embed) (r s : Result ℕ)
      → size < word
      → e.size + embed_size < word
      → (e.size + embed_size ≤ size - embed_size → embed_size ≤ size → r ≡ s)
      → round size offset e r ≡ round size offset e s
  round_alike size offset e r s small fits alike = elim (Bool-cases (ltb size embed_size)) [
    | inl c ↦ rw c refl
    | inr c ↦
        let header = ltb_false→le size embed_size c in
        let left : (size + word - embed_size) % word ≡ size - embed_size = omega (arith, header) in
        let whole : (e.size + embed_size) % word ≡ e.size + embed_size = omega arith in
        elim (Bool-cases (ltb (size - embed_size) (e.size + embed_size))) [
          | inl d ↦ rw (c, left, whole, d) refl
          | inr d ↦
              rw (c, left, whole, d)
                (ap (λ q. if e.type == embed_data then ok ((offset + embed_size) % word) else q)
                  (alike (ltb_false→le (size - embed_size) (e.size + embed_size) d) header))
        ]
  ]

  abbrev walk : Result Embed → ℕ → ℕ → (Embed → Result ℕ) → Result ℕ
  walk (ok e) size offset rest = round size offset e (rest e)
  walk (throw ex) size offset rest = throw ex
  walk undefined size offset rest = undefined

  -- The loop behind an object.
  abbrev behind_object : Result ℕ → ℕ → Bytes → ℕ → ℕ → Embed → Result ℕ
  behind_object unended fuel result size offset e =
      embed_loop x unended fuel result (((size + word - embed_size) % word + word - e.size) % word)
        (((offset + embed_size) % word + e.size) % word)

  loop_round :
      (unended : Result ℕ) (fuel : ℕ) (result : Bytes) (size offset : ℕ)
      → embed_loop x unended (suc fuel) result size offset ≡ (
          if size == 0
          then ok offset
          else walk
              (convert_embedded x result offset)
              size
              offset
              (behind_object unended fuel result size offset))
  unfolding embed_loop
  loop_round unended fuel result size offset =
      ap (λ r. if size == 0 then ok offset else r) (either (convert_embedded x result offset))
    where
      either :
          (r : Result Embed)
          → (elim r as (λ s. Result ℕ) [
            | throw e ↦ throw e
            | undefined ↦ undefined
            | ok e ↦ round size offset e (behind_object unended fuel result size offset e)
          ])
            ≡ walk r size offset (behind_object unended fuel result size offset)
      either (ok e) = refl
      either (throw ex) = refl
      either undefined = refl

  -- In a text shorter than 2 ^ 64 in which no object claims a size that wraps around with its header,
  -- any fuel above the size that is left gives one and the same result, whatever stands for a loop
  -- that the fuel does not bring to an end: the walk comes to its end before the fuel does.
  pub embed_loop_enough :
      (r s : Result ℕ) (n m : ℕ) (result : Bytes) (size offset : ℕ)
      → Fits result
      → size < word
      → size < n
      → size < m
      → embed_loop x r n result size offset ≡ embed_loop x s m result size offset
  embed_loop_enough r s zero m result size offset fits small h k = absurd (omega arith)
  embed_loop_enough r s (suc n) zero result size offset fits small h k = absurd (omega arith)
  embed_loop_enough r s (suc n) (suc m) result size offset fits small h k =
      rw (loop_round r n result size offset, loop_round s m result size offset)
        (ap (λ q. if size == 0 then ok offset else q)
          (alike (convert_embedded x result offset) refl (λ e whole header fit.
            embed_loop_enough r s n m result _ _ fits (omega (arith, fit))
              (omega (arith, whole, header, fit)) (omega (arith, whole, header, fit)))))
    where
      alike :
          (o : Result Embed)
          → convert_embedded x result offset ≡ o
          → ((e : Embed)
              → e.size + embed_size ≤ size - embed_size
              → embed_size ≤ size
              → e.size + embed_size < word
              → behind_object r n result size offset e ≡ behind_object s m result size offset e)
          → walk o size offset (behind_object r n result size offset)
            ≡ walk o size offset (behind_object s m result size offset)
      alike (ok e) p rest =
          let fit = fits offset e p in
          round_alike size offset e _ _ small fit (λ whole header. rest e whole header fit)
      alike (throw ex) p rest = refl
      alike undefined p rest = refl
