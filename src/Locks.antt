-- ===== src/Locks.antt =====
-- The locks of the HTTP client's helpers: `scoped_lock` (src/scoped_lock.hpp), the monitor and the
-- threads of src/boost_threaded.hpp, and the locks that src/curl_wrapper.hpp gives to OpenSSL. The
-- classes of boost are a parameter.
pub mod Crypto
use libelliptics_proxy.Base.{ℕ, Bool, List, Option}
use libelliptics_proxy.Result.{Exception, Result, ok, throw, undefined}
use libelliptics_proxy.Resource.{Ptr, Objects, Use, construct, use_objects}

-- What a `scoped_lock` wants of its lock.
pub record Lock (S : Type 0) : Type 0 where
  pub lock : S → Result (Unit {0}) × S
  pub unlock : S → Result (Unit {0}) × S

module _ {S A : Type 0} where
  -- The destructor's `unlock`, by how the scope ended: an exception of it goes on from a scope that
  -- ended well, and ends the program where another one is under way.
  unfoldable pub after_scope : Result A → Result (Unit {0}) × S → Result A × S
  after_scope r (ok u, s) = (r, s)
  after_scope (ok a) (throw e, s) = (throw e, s)
  after_scope (throw d) (throw e, s) = (undefined, s)
  after_scope undefined (throw e, s) = (undefined, s)
  after_scope r (undefined, s) = (undefined, s)

  unfoldable pub leave : Lock S → Result A × S → Result A × S
  unfolding after_scope
  leave l (r, s) = after_scope r (l.unlock s)

  unfoldable pub enter : Lock S → (S → Result A × S) → Result (Unit {0}) × S → Result A × S
  unfolding leave
  enter l body (ok u, s) = leave l (body s)
  enter l body (throw e, s) = (throw e, s)
  enter l body (undefined, s) = (undefined, s)

  -- `scoped_lock<Lock>` as a local variable, in front of the rest of its scope.
  unfoldable pub scoped_lock : Lock S → (S → Result A × S) → S → Result A × S
  unfolding enter
  scoped_lock l body s = enter l body (l.lock s)

  -- `scoped_lock<single_threaded_mutex>`.
  unfoldable pub scoped_no_lock : (S → Result A × S) → S → Result A × S
  scoped_no_lock body s = body s

-- `boost::mutex::scoped_lock` on a mutex, with `boost::condition`: the state of the three, and their
-- methods.
pub record Boost : Type 1 where
  pub State : Type 0
  pub owns_lock : State → Bool
  -- The state after `lock_(mutex_)`, which takes the lock.
  pub opened : State
  pub lock : State → Result (Unit {0}) × State
  pub unlock : State → Result (Unit {0}) × State
  pub wait : State → Result (Unit {0}) × State
  pub timed_wait : ℕ → ℕ → State → Result Bool × State
  pub notify_one : State → State
  pub notify_all : State → State

module _ (b : Boost) where
  -- `boost_threaded_monitor`.
  unfoldable pub new_monitor : b.State
  new_monitor = b.opened

  unfoldable pub wait : b.State → Result (Unit {0}) × b.State
  wait m = b.wait m

  unfoldable pub timed_wait : ℕ → ℕ → b.State → Result Bool × b.State
  timed_wait sec nanos m = b.timed_wait sec nanos m

  unfoldable pub notify : b.State → b.State
  notify m = b.notify_one m

  unfoldable pub notify_all : b.State → b.State
  notify_all m = b.notify_all m

  unfoldable pub monitor_lock : Lock b.State
  monitor_lock = record { lock = b.lock; unlock = b.unlock }

  -- `boost_threading_traits::synchronized`.
  unfoldable pub synchronized :
      {A : Type 0} → (b.State → Result A × b.State) → b.State → Result A × b.State
  unfolding monitor_lock scoped_lock
  synchronized body m = scoped_lock monitor_lock body m

-- `create_thread`: the new thread, as a pointer, becomes the value of a new `resource`.
unfoldable pub create_thread : Ptr → Objects → Option Objects
unfolding use_objects
create_thread thread s = use_objects (construct thread) s
