-- ===== src/Curl/Rules.antt =====
-- Predicates that the steps of a method of a client (src/curl_wrapper.hpp) keep.
use libelliptics_proxy.Base.{ℕ, Bool, true, false, ◌==◌, if◌then◌else◌}
use libelliptics_proxy.Result.{Exception, Result, ok, throw, undefined}
use libelliptics_proxy.Curl.{Client, C, pure, raise, hand_on, check_error, ◌>>=◌}

-- A method after which a predicate holds if it did before.
pub record Keeps (I : Client → Type 0) {A : Type 0} (m : C A) : Type 0 where
  pub kept : (c : Client) → I c → I (m c).1

module _ {I : Client → Type 0} where
  handed_on :
      {A B : Type 0} {f : A → C B} (r : Result A × Client)
      → ((a : A) → Keeps I (f a))
      → I r.1
      → I (hand_on f r).1
  handed_on (ok a, c) k h = (k a).kept c h
  handed_on (throw e, c) k h = h
  handed_on (undefined, c) k h = h

  pub bind-Keeps :
      {A B : Type 0} {m : C A} {f : A → C B}
      → Keeps I m
      → ((a : A) → Keeps I (f a))
      → Keeps I (m >>= f)
  bind-Keeps {m = m} km kf = record { kept = λ c h. handed_on (m c) kf (km.kept c h) }

  pub pure-Keeps : {A : Type 0} (a : A) → Keeps I (pure a)
  pure-Keeps a = record { kept = λ c h. h }

  pub raise-Keeps : {A : Type 0} (e : Exception) → Keeps I (raise {A = A} e)
  raise-Keeps e = record { kept = λ c h. h }

  pub if-Keeps :
      {A : Type 0} {m n : C A} (b : Bool) → Keeps I m → Keeps I n → Keeps I (if b then m else n)
  if-Keeps true km kn = km
  if-Keeps false km kn = kn

  pub ruleset plain = (bind-Keeps, pure-Keeps, raise-Keeps, if-Keeps)

  pub check_error-Keeps : (code : ℕ) → Keeps I (check_error code)
  check_error-Keeps code = if-Keeps (code == 0) (pure-Keeps tt) (raise-Keeps _)
