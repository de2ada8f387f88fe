-- ===== src/Metabase/Rounds.antt =====
-- The thread that renews the weights: `collectGroupWeightsLoop` (src/proxy.cpp).
use libelliptics_proxy.Base.{
  ℕ, zero, suc, ◌+◌, ◌%◌, ◌<◌, ◌≡◌, refl, ◌∙◌, ◌⊎◌, inl, inr, true, ◌≢◌, List, [], ◌∷◌, arith, word,
}
use libelliptics_proxy.Result.{
  Result, Exception, ok, throw, runtime_error, length_error, out_of_range, bad_lexical_cast,
  library, foreign, dealer,
}
use libelliptics_proxy.Weights.{MetabaseGroupWeightsResponse, update, initialized}
use libelliptics_proxy.Weights.Caching.{update_lem}
use libelliptics_proxy.Metabase.{
  is_caught, collect_group_weights, collect_round, collect_group_weights_loop,
}
use libelliptics_proxy.Proxy.{External, Settings, World, Event, bind_ok}

-- The requests for weights among the calls made, and the pauses.
abbrev pub asked : List Event → ℕ
asked [] = 0
asked (Event.get_group_weights stamp ∷ es) = suc (asked es)
asked (e ∷ es) = asked es

abbrev pub slept : List Event → ℕ
slept [] = 0
slept (Event.sleep period ∷ es) = suc (slept es)
slept (e ∷ es) = slept es

module _ (x : External) (c : Settings) where
  -- The dealer answers, or throws what derives from `std::exception` or is an error of the dealer's
  -- own.
  abbrev pub IsAnswering : Type 0
  IsAnswering =
      (es : List Event)
      → ((resp : MetabaseGroupWeightsResponse) × (x.weights es ≡ ok resp))
        ⊎ ((e : Exception) × (x.weights es ≡ throw e) × ((n : ℕ) → e ≢ foreign n))

  answering-is_caught : (e : Exception) → ((n : ℕ) → e ≢ foreign n) → is_caught e ≡ true
  answering-is_caught (runtime_error reason) not_foreign = refl
  answering-is_caught length_error not_foreign = refl
  answering-is_caught out_of_range not_foreign = refl
  answering-is_caught bad_lexical_cast not_foreign = refl
  answering-is_caught (library n) not_foreign = refl
  answering-is_caught (foreign n) not_foreign = absurd (not_foreign n refl)
  answering-is_caught (dealer derived n) not_foreign = refl

  -- What some rounds have done to the world.
  abbrev pub Survives : ℕ → World → Result (Unit {0}) × World → Type 0
  Survives rounds w r =
      (w' : World) × (r ≡ (ok tt, w'))
      × (w'.stamp ≡ (w.stamp + rounds) % word)
      × (asked w'.trace ≡ asked w.trace + rounds)
      × (slept w'.trace ≡ slept w.trace + rounds)
      × (initialized w.cache ≡ true → initialized w'.cache ≡ true)

  kept :
      (w : World) (resp : MetabaseGroupWeightsResponse)
      → initialized w.cache ≡ true
      → initialized (update w.cache resp).1 ≡ true
  kept w resp h = ground (arith, update_lem w.cache resp)

  collect_round-Survives :
      (w : World) → c.has_dealer ≡ true → IsAnswering → Survives 1 w (collect_round x c w)
  unfolding collect_round collect_group_weights
  collect_round-Survives w has_dealer answers =
      let next = (w.stamp + 1) % word in
      let calls = Event.get_group_weights next ∷ w.trace in
      elim (answers calls) [
        | inl (resp, e) ↦ (
          record {
            trace = Event.sleep c.group_weights_update_period ∷ Event.log_info ∷ calls;
            cache = (update w.cache resp).1;
            stamp = next;
          },
          rw (has_dealer, e) refl,
          refl,
          omega arith,
          omega arith,
          kept w resp,
        )
        | inr (ex, e, not_foreign) ↦ (
          record {
            trace = Event.sleep c.group_weights_update_period ∷ Event.log_error ∷ calls;
            cache = w.cache;
            stamp = next;
          },
          rw (has_dealer, e, answering-is_caught ex not_foreign) refl,
          refl,
          omega arith,
          omega arith,
          λ h. h,
        )
      ]

  -- With a dealer that answers, throws what derives from `std::exception` or throws an error of the
  -- dealer's own, the loop goes through any number of rounds without an exception: each asks the
  -- dealer once and sleeps once, the stamp grows by one a round, modulo 2 ^ 64, and a cache that has
  -- an entry for some number of copies before the rounds has one after them.
  pub collect_group_weights_loop-Survives :
      (rounds : ℕ) (w : World)
      → w.stamp < word
      → c.has_dealer ≡ true
      → IsAnswering
      → Survives rounds w (collect_group_weights_loop x c rounds w)
  unfolding collect_group_weights_loop
  collect_group_weights_loop-Survives zero w small has_dealer answers =
      (w, refl, omega arith, omega arith, omega arith, λ h. h)
  collect_group_weights_loop-Survives (suc rounds) w small has_dealer answers =
      let (w1, e1, stamp1, asked1, slept1, kept1) = collect_round-Survives w has_dealer answers in
      let (w2, e2, stamp2, asked2, slept2, kept2) =
        collect_group_weights_loop-Survives rounds w1 (omega (arith, stamp1)) has_dealer answers in
      (
        w2,
        bind_ok (collect_round x c) (λ u. collect_group_weights_loop x c rounds) w w1 tt e1 ∙ e2,
        omega (arith, stamp1, stamp2),
        omega (arith, asked1, asked2),
        omega (arith, slept1, slept2),
        λ h. kept2 (kept1 h),
      )
