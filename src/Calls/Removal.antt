-- ===== src/Calls/Removal.antt =====
-- `remove_impl` (src/proxy.cpp) for a key by identifier.
use libelliptics_proxy.Base.{
  ℕ, ◌+◌, ◌<◌, ◌≤◌, ◌≡◌, refl, ap, ◌∙◌, ◌⊎◌, inl, inr, ℤ, Bool, true, false, ◌||◌, List, [], ◌∷◌,
  arith, length, lt→ltb, if◌then◌else◌,
}
use libelliptics_proxy.Result.{
  Result, Exception, ok, throw, undefined, runtime_error, remove_failed, library, is_std,
}
use libelliptics_proxy.Ids.{DnetId}
use libelliptics_proxy.Proxy.{External, World, Event, M, catching, bind_ok, pure, fail, ◌>>=◌}
use libelliptics_proxy.Calls.{after_failure, remove_one, remove_from, remove_by_id}

if-or : (a b : Bool) → (if a then true else b) ≡ (a || b)
if-or true b = refl
if-or false b = refl

abbrev ended : Bool → M (Unit {0})
ended b = if b then pure tt else fail remove_failed

outcome :
    (b : Bool) (w : World)
    → ended b w ≡ (if b then ok tt else throw (runtime_error remove_failed), w)
outcome true w = refl
outcome false w = refl

module _ (x : External) (id : DnetId) where
  abbrev pub removal : ℤ → Event
  removal g = Event.remove_id (record id { group_id = g })

  -- Whether a removal was answered well.
  abbrev pub worked : Result (Unit {0}) → Bool
  worked (ok _) = true
  worked (throw e) = false
  worked undefined = false

  -- The calls of one removal: the failed one is logged.
  abbrev pub tried : List Event → ℤ → List Event
  tried es g =
      if worked (x.done (removal g ∷ es)) then removal g ∷ es else Event.log_error ∷ removal g ∷ es

  -- Whether one of the removals works, each being tried after those before it.
  abbrev pub some_work : List Event → List ℤ → Bool
  some_work es [] = false
  some_work es (g ∷ gs) = worked (x.done (removal g ∷ es)) || some_work (tried es g) gs

  abbrev pub all_tried : List Event → List ℤ → List Event
  all_tried es [] = es
  all_tried es (g ∷ gs) = all_tried (tried es g) gs

  -- Removals are answered, or refused by an exception of the library.
  abbrev pub IsRegular : Type 0
  IsRegular = (es : List Event) → (x.done es ≡ ok tt) ⊎ ((n : ℕ) × (x.done es ≡ throw (library n)))

  one_removal :
      (groups : List ℤ) (i : ℕ) (g : ℤ) (w : World)
      → IsRegular
      → i < length groups
      → catching is_std (remove_one x id g) (λ e. after_failure x groups i) w
        ≡ (ok (worked (x.done (removal g ∷ w.trace))), record w { trace = tried w.trace g })
  unfolding remove_one after_failure
  one_removal groups i g w regular h = elim (regular (removal g ∷ w.trace)) [
    | inl e ↦ rw e refl
    | inr (n, e) ↦ rw (e, lt→ltb i (length groups) h) refl
  ]

  remove_from_lem :
      (groups : List ℤ) (i : ℕ) (gs : List ℤ) (w : World)
      → IsRegular
      → i + length gs ≤ length groups
      → remove_from x id groups i gs w
        ≡ (ok (some_work w.trace gs), record w { trace = all_tried w.trace gs })
  unfolding remove_from
  remove_from_lem groups i [] w regular h = refl
  remove_from_lem groups i (g ∷ gs) w regular h =
      let w' : World = record w { trace = tried w.trace g } in
      let answer : Bool → Bool → Bool = λ a b. if a then true else b in
      bind_ok (catching is_std (remove_one x id g) (λ e. after_failure x groups i))
        (λ removed. remove_from x id groups (i + 1) gs >>= λ others. pure (answer removed others)) w
        w' (worked (x.done (removal g ∷ w.trace))) (one_removal groups i g w regular (omega arith))
      ∙ bind_ok (remove_from x id groups (i + 1) gs)
          (λ others. pure (answer (worked (x.done (removal g ∷ w.trace))) others)) w'
          (record w { trace = all_tried w'.trace gs }) (some_work w'.trace gs)
          (remove_from_lem groups (i + 1) gs w' regular (omega arith))
      ∙ ap (λ b. (ok b, record w { trace = all_tried w'.trace gs }))
          (if-or (worked (x.done (removal g ∷ w.trace))) (some_work w'.trace gs))

  -- Where the groups are named by the call, and each removal is granted or refused by an exception
  -- of the library, the object is removed from each of the groups in turn, the failures are logged,
  -- and the call succeeds exactly if one of the removals has.
  pub remove_by_id_lem :
      (groups : List ℤ) (w : World)
      → IsRegular
      → remove_by_id x id groups groups w ≡ (
        if some_work w.trace groups then ok tt else throw (runtime_error remove_failed),
        record w { trace = all_tried w.trace groups },
      )
  unfolding remove_by_id
  remove_by_id_lem groups w regular =
      bind_ok (remove_from x id groups 0 groups) ended w
        (record w { trace = all_tried w.trace groups }) (some_work w.trace groups)
        (remove_from_lem groups 0 groups w regular (omega arith))
      ∙ outcome (some_work w.trace groups) (record w { trace = all_tried w.trace groups })

  -- Where the call names no groups and the removal from the first of the chosen groups throws a
  -- standard exception, `groups[i]` of an empty vector is read for the message.
  pub remove_by_id_unnamed :
      (g : ℤ) (gs : List ℤ) (w : World) (e : Exception)
      → x.done (removal g ∷ w.trace) ≡ throw e
      → is_std e ≡ true
      → (remove_by_id x id [] (g ∷ gs) w).0 ≡ undefined
  unfolding remove_by_id remove_from after_failure
  remove_by_id_unnamed g gs w e h std = rw (h, std) refl
