-- ===== src/System/Keeping.antt =====
-- What the steps of a method (src/proxy.cpp) leave as it is: a predicate on the state that no call but
-- those of the weights can break.
use libelliptics_proxy.Base.{
  ℕ, Bool, true, false, List, ◌≡◌, refl, if◌then◌else◌, Bool-cases, inl, inr,
}
use libelliptics_proxy.Result.{Exception, Reason, Result, ok, throw, undefined}
use libelliptics_proxy.Metabase.{collect_group_weights, choose_cached}
use libelliptics_proxy.Proxy.{
  External, Settings, World, Event, M, pure, lift, raise, fail, ask, tell, note, hand_on, handle,
  log_failure, require, rethrow_logged, catching, ◌>>=◌,
}

-- A call that does not ask for weights.
abbrev pub is_quiet : Event → Bool
is_quiet (Event.get_group_weights stamp) = false
is_quiet _ = true

-- A method after which the predicate holds if it did before.
pub record Preserves (I : World → Type 0) {A : Type 0} (m : M A) : Type 0 where
  pub kept : (w : World) → I w → I (m w).1

-- The predicate survives calls that do not ask for weights, and the two methods of the weights.
pub record IsKept (x : External) (c : Settings) (I : World → Type 0) : Type 0 where
  pub noted : (w : World) (e : Event) → is_quiet e ≡ true → I w → I (note w e)
  pub collects : Preserves I (collect_group_weights x c)
  pub chooses : (count : ℕ) → Preserves I (choose_cached x c count)

module _ {x : External} {c : Settings} {I : World → Type 0} (keep : IsKept x c I) where
  pub tell-Preserves : (e : Event) → is_quiet e ≡ true → Preserves I (tell e)
  tell-Preserves e quiet = record { kept = λ w h. keep.noted w e quiet h }

  pub ask-Preserves :
      {A : Type 0} (answer : List Event → Result A) (e : Event)
      → is_quiet e ≡ true
      → Preserves I (ask answer e)
  ask-Preserves answer e quiet = record { kept = λ w h. keep.noted w e quiet h }

  pub rethrow_logged-Preserves :
      {A : Type 0} {m : M A} → Preserves I m → Preserves I (rethrow_logged m)
  rethrow_logged-Preserves {A = A} {m = m} pm = record { kept = λ w h. logged (m w) (pm.kept w h) }
    where
      logged : (r : Result A × World) → I r.1 → I (log_failure r).1
      logged (ok a, v) k = k
      logged (throw e, v) k = keep.noted v Event.log_error refl k
      logged (undefined, v) k = k

module _ {I : World → Type 0} where
  pub pure-Preserves : {A : Type 0} (a : A) → Preserves I (pure a)
  pure-Preserves a = record { kept = λ w h. h }

  pub lift-Preserves : {A : Type 0} (r : Result A) → Preserves I (lift r)
  lift-Preserves r = record { kept = λ w h. h }

  pub fail-Preserves : {A : Type 0} (r : Reason) → Preserves I (fail {A = A} r)
  fail-Preserves r = record { kept = λ w h. h }

  pub require-Preserves : (b : Bool) (r : Reason) → Preserves I (require b r)
  require-Preserves true r = record { kept = λ w h. h }
  require-Preserves false r = record { kept = λ w h. h }

  pub bind-Preserves :
      {A : Type 0} {B : Type 0} {m : M A} {f : A → M B}
      → Preserves I m
      → ((a : A) → Preserves I (f a))
      → Preserves I (m >>= f)
  bind-Preserves {A = A} {m = m} {f = f} pm pf = record { kept = λ w h. handed (m w) (pm.kept w h) }
    where
      handed : (r : Result A × World) → I r.1 → I (hand_on f r).1
      handed (ok a, v) k = (pf a).kept v k
      handed (throw e, v) k = k
      handed (undefined, v) k = k

  pub catching-Preserves :
      {A : Type 0} (test : Exception → Bool) {m : M A} {f : Exception → M A}
      → Preserves I m
      → ((e : Exception) → Preserves I (f e))
      → Preserves I (catching test m f)
  catching-Preserves {A = A} test {m = m} {f = f} pm pf = record {
    kept = λ w h. handled (m w) (pm.kept w h);
  }
    where
      handled : (r : Result A × World) → I r.1 → I (handle test f r).1
      handled (ok a, v) k = k
      handled (throw e, v) k = elim (Bool-cases (test e)) [
        | inl t ↦ rw t ((pf e).kept v k)
        | inr t ↦ rw t k
      ]
      handled (undefined, v) k = k

  pub if-Preserves :
      {A : Type 0} (b : Bool) {m n : M A}
      → Preserves I m
      → Preserves I n
      → Preserves I (if b then m else n)
  if-Preserves true pm pn = pm
  if-Preserves false pm pn = pn

  pub raise-Preserves : {A : Type 0} (e : Exception) → Preserves I (raise {A = A} e)
  raise-Preserves e = record { kept = λ w h. h }

-- The rules for the parts of a method that make no call.
pub ruleset parts = (
  bind-Preserves, if-Preserves, pure-Preserves, lift-Preserves, fail-Preserves, raise-Preserves,
  require-Preserves,
)

pub quiet-if :
    (b : Bool) (e f : Event)
    → is_quiet e ≡ true
    → is_quiet f ≡ true
    → is_quiet (if b then e else f) ≡ true
quiet-if true e f p q = p
quiet-if false e f p q = q
