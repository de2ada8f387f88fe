-- ===== src/Bulk/Replicas.antt =====
-- The copies that a bulk write asks for (src/proxy.cpp, lines 894-931).
use libelliptics_proxy.Base.{
  ℕ, ◌<◌, ◌≤◌, ◌≡◌, refl, ℤ, Bool, true, false, List, [], ◌∷◌, ltb, length, lt→ltb, if◌then◌else◌,
  le→ltb_false,
}
use libelliptics_proxy.Result.{ok, throw, runtime_error, not_enough_copies}
use libelliptics_proxy.OrderedMap.{Map}
use libelliptics_proxy.Ids.{Key}
use libelliptics_proxy.Proxy.{External, World, Event, fail, bind_ok}
use libelliptics_proxy.Bulk.{all_enough, remove_all, check_copies}

-- Every object reached at least `need` groups.
pub data HasCopies : ℕ → Map Key (List ℤ) → Type 0 where
  no_object : {need : ℕ} → HasCopies need []
  and_object :
      {need : ℕ} {key : Key} {gs : List ℤ} {m : Map Key (List ℤ)}
      → need ≤ length gs
      → HasCopies need m
      → HasCopies need ((key, gs) ∷ m)

-- An object reached fewer than `need` groups.
pub data LacksCopies : ℕ → Map Key (List ℤ) → Type 0 where
  this_object :
      {need : ℕ} {key : Key} {gs : List ℤ} {m : Map Key (List ℤ)}
      → length gs < need
      → LacksCopies need ((key, gs) ∷ m)
  later_object :
      {need : ℕ} {key : Key} {gs : List ℤ} {m : Map Key (List ℤ)}
      → LacksCopies need m
      → LacksCopies need ((key, gs) ∷ m)

all_enough-HasCopies :
    (need : ℕ) (m : Map Key (List ℤ)) → HasCopies need m → all_enough need m ≡ true
unfolding all_enough
all_enough-HasCopies need [] h = refl
all_enough-HasCopies need ((key, gs) ∷ m) (and_object h hs) =
    rw (le→ltb_false (length gs) need h) (all_enough-HasCopies need m hs)

if_same : (b : Bool) → (if b then false else false) ≡ false
if_same true = refl
if_same false = refl

all_enough-LacksCopies :
    (need : ℕ) (m : Map Key (List ℤ)) → LacksCopies need m → all_enough need m ≡ false
unfolding all_enough
all_enough-LacksCopies need [] h = elim h [ ]
all_enough-LacksCopies need ((key, gs) ∷ m) (this_object h) = rw (lt→ltb (length gs) need h) refl
all_enough-LacksCopies need ((key, gs) ∷ m) (later_object h) =
    rw (all_enough-LacksCopies need m h) (if_same (ltb (length gs) need))

module _ (x : External) (garbage : ℤ) where
  -- The calls that remove every object from the groups it was written to.
  abbrev pub removals : List Event → Map Key (List ℤ) → List Event
  removals es [] = es
  removals es ((key, gs) ∷ m) = removals (Event.remove_key key ∷ Event.set_groups gs ∷ es) m

  remove_all_lem :
      (m : Map Key (List ℤ)) (w : World)
      → ((es : List Event) → x.done es ≡ ok tt)
      → remove_all x garbage m w ≡ (ok tt, record w { trace = removals w.trace m })
  unfolding remove_all
  remove_all_lem [] w h = refl
  remove_all_lem ((key, gs) ∷ m) w h =
      rw (h (Event.remove_key key ∷ Event.set_groups gs ∷ w.trace)) (
        remove_all_lem m (record w { trace = Event.remove_key key ∷ Event.set_groups gs ∷ w.trace })
          h)

  -- Where the node grants removals: if every object reached `need` groups, nothing is called; if one did not, every object is
  -- removed from the groups it was written to, and the call throws.
  pub check_copies_lem :
      (need : ℕ) (m : Map Key (List ℤ)) (w : World)
      → ((es : List Event) → x.done es ≡ ok tt)
      → (HasCopies need m → check_copies x garbage need m w ≡ (ok tt, w))
        × (LacksCopies need m
            → check_copies x garbage need m w
              ≡ (throw (runtime_error not_enough_copies), record w { trace = removals w.trace m }))
  unfolding check_copies
  check_copies_lem need m w h = (
    λ enough. rw (all_enough-HasCopies need m enough) refl,
    λ lacks. rw (all_enough-LacksCopies need m lacks) (
        bind_ok (remove_all x garbage m) (λ r. fail not_enough_copies) w
          (record w { trace = removals w.trace m }) tt (remove_all_lem m w h)),
  )
