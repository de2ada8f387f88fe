-- ===== src/Locks/Crypto.antt =====
-- The locks that OpenSSL gets from src/curl_wrapper.hpp: `CRYPTO_thread_setup`, the callback that
-- takes and gives them, and `CRYPTO_thread_cleanup`. `num_locks` is what `CRYPTO_num_locks` answers.
use libelliptics_proxy.Base.{
  ℕ, zero, suc, ◌+◌, ◌<◌, ◌≡◌, refl, Bool, true, false, not, ◌&&◌, ◌||◌, List, [], ◌∷◌, ◌==◌, ltb,
  leb, arith, All, if◌then◌else◌,
}

-- The calls that are made, on the mutexes of the array by their index.
pub data LockCall : Type 0 where
  allocate : ℕ → LockCall
  mutex_init mutex_lock mutex_unlock mutex_destroy : ℕ → LockCall
  set_id_callback release_array : LockCall
  set_locking_callback : Bool → LockCall

-- The two loops from an index on, over as many mutexes as are left.
unfoldable pub init_from : ℕ → ℕ → List LockCall → List LockCall
init_from i zero es = es
init_from i (suc left) es = init_from (suc i) left (mutex_init i ∷ es)

unfoldable pub destroy_from : ℕ → ℕ → List LockCall → List LockCall
destroy_from i zero es = es
destroy_from i (suc left) es = destroy_from (suc i) left (mutex_destroy i ∷ es)

unfoldable pub thread_setup : ℕ → List LockCall → List LockCall
unfolding init_from
thread_setup num_locks es =
    set_locking_callback true ∷ (set_id_callback ∷ init_from 0 num_locks (allocate num_locks ∷ es))

-- `is_lock` is the test of a mode for `CRYPTO_LOCK`.
unfoldable pub locking_callback : (ℕ → Bool) → ℕ → ℕ → List LockCall → List LockCall
locking_callback is_lock mode type es =
    (if is_lock mode then mutex_lock type else mutex_unlock type) ∷ es

unfoldable pub thread_cleanup : ℕ → List LockCall → List LockCall
unfolding destroy_from
thread_cleanup num_locks es =
    release_array ∷ destroy_from 0 num_locks (set_locking_callback false ∷ es)

-- The calls of the callback, by mode and type.
abbrev pub call_back : (ℕ → Bool) → List (ℕ × ℕ) → List LockCall → List LockCall
call_back is_lock [] es = es
call_back is_lock ((mode, type) ∷ uses) es =
    call_back is_lock uses (locking_callback is_lock mode type es)

-- The size of the array, the mutexes that can be used and those that are locked, and whether a call
-- was wrong: one on a mutex outside of the array or not ready, one that locks a locked mutex, or one
-- that unlocks or destroys one that is not in the state for it.
pub record Mutexes : Type 0 where
  pub size : ℕ
  pub ready : ℕ → Bool
  pub locked : ℕ → Bool
  pub misused : Bool

abbrev demand : ℕ → Bool → Mutexes → Mutexes
demand i b m = record m { misused = not (ltb i m.size && b) || m.misused }

abbrev pub put : ℕ → Bool → (ℕ → Bool) → ℕ → Bool
put i b f j = if j == i then b else f j

abbrev pub enter_call : LockCall → Mutexes → Mutexes
enter_call (allocate n) m = record m { size = n }
enter_call (mutex_init i) m =
    demand i (not (m.ready i))
      (record m { ready = put i true m.ready; locked = put i false m.locked })
enter_call (mutex_lock i) m =
    demand i (m.ready i && not (m.locked i)) (record m { locked = put i true m.locked })
enter_call (mutex_unlock i) m =
    demand i (m.ready i && m.locked i) (record m { locked = put i false m.locked })
enter_call (mutex_destroy i) m =
    demand i (m.ready i && not (m.locked i)) (record m { ready = put i false m.ready })
enter_call set_id_callback m = m
enter_call release_array m = record m { size = 0 }
enter_call (set_locking_callback on) m = m

abbrev pub mutexes : List LockCall → Mutexes
mutexes [] = record { size = 0; ready = λ i. false; locked = λ i. false; misused = false }
mutexes (e ∷ es) = enter_call e (mutexes es)

-- What OpenSSL documents of its calls: each lock is followed by the unlock of the same type, before
-- that type is locked again or the locks are cleaned up.
abbrev pub Paired : (ℕ → Bool) → (ℕ → Bool) → List (ℕ × ℕ) → Type 0
Paired is_lock taken [] = (i : ℕ) → taken i ≡ false
Paired is_lock taken ((mode, type) ∷ uses) =
    (is_lock mode ≡ not (taken type)) × Paired is_lock (put type (is_lock mode) taken) uses

-- Of as many mutexes as there are, those from one index to another are ready, and some of all are
-- locked.
record Ready (low high size : ℕ) (taken : ℕ → Bool) (m : Mutexes) : Type 0 where
  pub sized : m.size ≡ size
  pub between : (i : ℕ) → m.ready i ≡ (leb low i && ltb i high)
  pub taking : (i : ℕ) → m.locked i ≡ taken i
  pub right : m.misused ≡ false

abbrev pub none_taken : ℕ → Bool
none_taken i = false

init_from-Ready :
    (i left n : ℕ) (es : List LockCall)
    → n ≡ i + left
    → Ready 0 i n none_taken (mutexes es)
    → Ready 0 n n none_taken (mutexes (init_from i left es))
unfolding init_from
init_from-Ready i zero n es e h = record {
  sized = h.sized;
  between = λ j. ground (arith, h.between j);
  taking = h.taking;
  right = h.right;
}
init_from-Ready i (suc left) n es e h =
    init_from-Ready (suc i) left n (mutex_init i ∷ es) (omega (arith, e)) one_more
  where
    one_more : Ready 0 (suc i) n none_taken (mutexes (mutex_init i ∷ es))
    one_more = record {
      sized = h.sized;
      between = λ j. ground (arith, h.between j);
      taking = λ j. ground (arith, h.taking j);
      right = ground (arith, h.between i, h.sized, h.right, e);
    }

call_back-Ready :
    (is_lock : ℕ → Bool) (uses : List (ℕ × ℕ)) (taken : ℕ → Bool) (n : ℕ) (es : List LockCall)
    → All (λ u. u.1 < n) uses
    → Paired is_lock taken uses
    → Ready 0 n n taken (mutexes es)
    → Ready 0 n n none_taken (mutexes (call_back is_lock uses es))
unfolding locking_callback
call_back-Ready is_lock [] taken n es within pairs h = record {
  sized = h.sized;
  between = h.between;
  taking = λ j. ground (arith, h.taking j, pairs j);
  right = h.right;
}
call_back-Ready is_lock ((mode, type) ∷ uses) taken n es within pairs h =
    call_back-Ready is_lock uses (put type (is_lock mode) taken) n
      (locking_callback is_lock mode type es) within.1 pairs.1 (used (is_lock mode) pairs.0)
  where
    used :
        (b : Bool)
        → b ≡ not (taken type)
        → Ready 0 n n
            (put type b taken)
            (mutexes ((if b then mutex_lock type else mutex_unlock type) ∷ es))
    used true e = record {
      sized = h.sized;
      between = h.between;
      taking = λ j. ground (arith, h.taking j);
      right = ground (arith, h.sized, h.between type, h.taking type, h.right, within.0, e);
    }
    used false e = record {
      sized = h.sized;
      between = h.between;
      taking = λ j. ground (arith, h.taking j);
      right = ground (arith, h.sized, h.between type, h.taking type, h.right, within.0, e);
    }

destroy_from-Ready :
    (i left n : ℕ) (es : List LockCall)
    → n ≡ i + left
    → Ready i n n none_taken (mutexes es)
    → Ready n n n none_taken (mutexes (destroy_from i left es))
unfolding destroy_from
destroy_from-Ready i zero n es e h = record {
  sized = h.sized;
  between = λ j. ground (arith, h.between j);
  taking = h.taking;
  right = h.right;
}
destroy_from-Ready i (suc left) n es e h =
    destroy_from-Ready (suc i) left n (mutex_destroy i ∷ es) (omega (arith, e)) one_less
  where
    one_less : Ready (suc i) n n none_taken (mutexes (mutex_destroy i ∷ es))
    one_less = record {
      sized = h.sized;
      between = λ j. ground (arith, h.between j);
      taking = h.taking;
      right = ground (arith, h.sized, h.between i, h.taking i, h.right, e);
    }

-- Between setup and cleanup, whatever modes and types below the number of locks OpenSSL calls back
-- with, where it unlocks each type that it locked before it locks it again and before the cleanup:
-- every call names a mutex of the array that is ready, locks one that is not locked or unlocks one
-- that is, and at the end, when the array is released, every mutex has been destroyed.
pub thread_cleanup-thread_setup :
    (is_lock : ℕ → Bool) (num_locks : ℕ) (uses : List (ℕ × ℕ))
    → All (λ u. u.1 < num_locks) uses
    → Paired is_lock none_taken uses
    → let m =
        mutexes (thread_cleanup num_locks (call_back is_lock uses (thread_setup num_locks []))) in
      (m.misused ≡ false) × (m.size ≡ 0) × ((i : ℕ) → m.ready i ≡ false)
unfolding thread_cleanup thread_setup
thread_cleanup-thread_setup is_lock num_locks uses within pairs =
    (gone.right, refl, λ i. ground (arith, gone.between i))
  where
    made :
        Ready 0 num_locks num_locks none_taken
          (mutexes (init_from 0 num_locks (allocate num_locks ∷ [])))
    made =
        init_from-Ready 0 num_locks num_locks (allocate num_locks ∷ []) (omega arith)
          (record { sized = refl; between = λ i. ground arith; taking = λ i. refl; right = refl })

    ready : Ready 0 num_locks num_locks none_taken (mutexes (thread_setup num_locks []))
    ready = record {
      sized = made.sized;
      between = made.between;
      taking = made.taking;
      right = made.right;
    }

    used :
        Ready 0 num_locks num_locks none_taken
          (mutexes (call_back is_lock uses (thread_setup num_locks [])))
    used =
        call_back-Ready is_lock uses none_taken num_locks (thread_setup num_locks []) within pairs
          ready

    gone : Ready num_locks num_locks num_locks none_taken (
        mutexes (
          destroy_from 0 num_locks
            (set_locking_callback false ∷ call_back is_lock uses (thread_setup num_locks []))))
    gone = destroy_from-Ready 0 num_locks num_locks _ (omega arith) (record {
      sized = used.sized;
      between = used.between;
      taking = used.taking;
      right = used.right;
    })
