-- ===== src/Result.antt =====
-- What a call of the C++ code ends in, for all components: a value, an exception, or behaviour that
-- the language leaves undefined (a read outside an object), which no handler catches.
use libelliptics_proxy.Base.{ℕ, Bool, true, false}

-- The places that throw `std::runtime_error`, by what they complain of.
pub data Reason : Type 0 where
  empty_remotes too_few_states no_groups metabase_silent no_lookup_name invalid_embed : Reason
  not_enough_copies range_failed remove_failed small_record counts_differ : Reason
  no_dealer no_meta_info nothing_found no_curl_header form_refused : Reason

-- `library` stands for the exceptions of elliptics, boost and curl that derive from
-- `std::exception`, `foreign` for those that do not, and `dealer` for the three types of cocaine and
-- msgpack that the metabase calls name in their handlers, with the mark whether the type derives
-- from it; `length_error` and `out_of_range` are the standard library's.
pub data Exception : Type 0 where
  runtime_error : Reason → Exception
  length_error out_of_range bad_lexical_cast : Exception
  library foreign : ℕ → Exception
  dealer : Bool → ℕ → Exception

-- What `catch (const std::exception &)` takes.
abbrev pub is_std : Exception → Bool
is_std (foreign n) = false
is_std (dealer derived n) = derived
is_std _ = true

pub data Result {ℓ} (A : Type ℓ) : Type ℓ where
  ok : A → Result A
  throw : Exception → Result A
  undefined : Result A

infixl 5 ◌>>=◌ ◌>>◌
abbrev pub ◌>>=◌ {ℓ κ} : {A : Type ℓ} {B : Type κ} → Result A → (A → Result B) → Result B
ok a >>= f = f a
throw e >>= f = throw e
undefined >>= f = undefined

abbrev pub ◌>>◌ {ℓ κ} : {A : Type ℓ} {B : Type κ} → Result A → Result B → Result B
m >> k = m >>= λ _. k
