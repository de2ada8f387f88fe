-- ===== src/Tests/Locking.antt =====
-- The theorems on src/scoped_lock.hpp, src/boost_threaded.hpp, the locks of OpenSSL in
-- src/curl_wrapper.hpp and the threads at src/group_weights_cache.cpp, at concrete runs.
use libelliptics_proxy.Base.{
  ℕ, ◌≡◌, refl, Bool, true, false, List, [], ◌∷◌, some, none, arith, ltb, ◌==◌,
}
use libelliptics_proxy.OrderedMap.{find, assign}
use libelliptics_proxy.Locks.Crypto.{
  thread_setup, thread_cleanup, call_back, mutexes, Paired, none_taken, thread_cleanup-thread_setup,
}
use libelliptics_proxy.Weights.{WeightedGroups, collect, add_all, no_groups}
use libelliptics_proxy.Weights.Threads.{
  Threads, Reach, start, later, outside, built, replacing, choosing, inserting, picking, is_alone,
  has_lock, builds, takes_alone, replaces, takes_shared, finds, go, put, replace,
}
use libelliptics_proxy.Weights.Threads.Locking.{Reach-valid}
use libelliptics_proxy.Weights.Threads.Racing.{Reach-race}
use libelliptics_proxy.Tests.Fixtures.{response, pair_weights}

-- Two mutexes, of which the second is locked and unlocked.
abbrev uses : List (ℕ × ℕ)
uses = (1, 1) ∷ (0, 1) ∷ []

abbrev is_lock : ℕ → Bool
is_lock mode = mode == 1

uses-Paired : Paired is_lock none_taken uses
uses-Paired = (refl, (refl, λ i. ground arith))

thread_cleanup-thread_setup_example :
    let m = mutexes (thread_cleanup 2 (call_back is_lock uses (thread_setup 2 []))) in
    (m.misused ≡ false) × (m.size ≡ 0) × ((i : ℕ) → m.ready i ≡ false)
thread_cleanup-thread_setup_example =
    thread_cleanup-thread_setup is_lock 2 uses (omega arith, (omega arith, tt)) uses-Paired

-- Thread 0 updates the cache, and thread 1 finds the groups for two copies.
abbrev nowhere : Threads
nowhere = record { map = []; place = λ i. outside }

abbrev at_building : Threads
at_building = go 0 (built response) nowhere

abbrev at_replacing : Threads
at_replacing = go 0 (replacing response) at_building

abbrev replaced : Threads
replaced = record {
  map = replace (collect [] response.info) [];
  place = put 0 outside at_replacing.place;
}

abbrev at_choosing : Threads
at_choosing = go 1 (choosing 2) replaced

abbrev pair : WeightedGroups
pair = add_all no_groups pair_weights

abbrev at_picking : Threads
at_picking = go 1 (picking 2 pair) at_choosing

pair_found : find ltb 2 (replace (collect [] response.info) []) ≡ some pair
unfolding find collect assign
pair_found = refl

nobody_else : (j : ℕ) → has_lock (at_building.place j) ≡ false
nobody_else j = ground arith

nobody_alone : (j : ℕ) → is_alone (replaced.place j) ≡ false
nobody_alone j = ground arith

unfoldable reach_replaced : Reach replaced
reach_replaced =
    later (later (later start (builds 0 response refl)) (takes_alone 0 response refl nobody_else))
      (replaces 0 response refl)

unfoldable reach_picking : Reach at_picking
reach_picking =
    later (later reach_replaced (takes_shared 1 2 refl nobody_alone))
      (finds 1 2 pair refl pair_found)

Reach-valid_example :
    ((i j : ℕ)
      → is_alone (at_picking.place i) ≡ true
      → has_lock (at_picking.place j) ≡ true
      → i ≡ j)
    × ((i count : ℕ) (w : WeightedGroups)
        → at_picking.place i ≡ picking count w
        → find ltb count at_picking.map ≡ some w)
Reach-valid_example = Reach-valid reach_picking

three_missing : find ltb 3 (replace (collect [] response.info) []) ≡ none
unfolding find collect assign
three_missing = refl

Reach-race_example : (t : Threads) × Reach t × (t.place 1 ≡ inserting 3) × (t.place 2 ≡ inserting 3)
Reach-race_example =
    Reach-race 1 2 3 reach_replaced (λ e. omega (arith, e)) refl refl nobody_alone three_missing
