-- ===== src/Groups/Choice.antt =====
-- What `getGroups` (src/proxy.cpp) returns, as every call asks it, with no limit on the number.
use mathlib.Core.List.{Perm}
use mathlib.Core.List.Perm
use libelliptics_proxy.Base.{◌≡◌, refl, ◌∙◌, ap, inl, inr, ℤ, pos, true, List, [], ◌∷◌, Bool-cases}
use libelliptics_proxy.Result.{Exception, ok, throw, runtime_error, no_groups}
use libelliptics_proxy.Ids.{Key}
use libelliptics_proxy.Metabase.{get_meta_info}
use libelliptics_proxy.Proxy.{External, Settings, World, Event, bind_ok, handle, lift, pure, ◌>>=◌}
use libelliptics_proxy.Groups.{
  truncate, has_meta_info, stored_groups, shuffle_tail, non_empty, candidates, get_groups,
}

module _ (x : External) (c : Settings) where
  -- With no limit the candidates are returned, unless there are none.
  get_groups_of :
      (key : Key) (groups lgroups : List ℤ) (w w' : World)
      → candidates x c key groups w ≡ (ok lgroups, w')
      → get_groups x c key groups (pos 0) w ≡ non_empty x c lgroups w'
  unfolding get_groups
  get_groups_of key groups lgroups w w' h =
      bind_ok (candidates x c key groups) (λ l. lift (truncate (pos 0) l) >>= non_empty x c) w w'
        lgroups h

  -- A shuffle that keeps the elements.
  abbrev pub Permutes : Type 0
  Permutes = (es : List Event) (l : List ℤ) → Perm (x.shuffled es l) l

  shuffle_tail-Perm :
      (g : ℤ) (gs : List ℤ) (w : World)
      → Permutes
      → (tail : List ℤ) × (w' : World) × (shuffle_tail x c (g ∷ gs) w ≡ (ok (g ∷ tail), w'))
        × Perm tail gs
  unfolding shuffle_tail
  shuffle_tail-Perm g [] w p = ([], w, refl, Perm.refl [])
  shuffle_tail-Perm g (h ∷ gs) w p =
      let trace = Event.random_shuffle ∷ w.trace in
      (x.shuffled trace (h ∷ gs), record w { trace = trace }, refl, p trace (h ∷ gs))

  -- Where the call names no groups and at least one is stored, the stored groups are tried, with
  -- the first in front and the others in the order of the shuffle, which keeps the elements.
  pub get_groups_stored :
      (key : Key) (g : ℤ) (gs : List ℤ) (w w1 : World)
      → Permutes
      → stored_groups x c key w ≡ (ok (g ∷ gs), w1)
      → (tail : List ℤ) × (w' : World) × (get_groups x c key [] (pos 0) w ≡ (ok (g ∷ tail), w'))
        × Perm tail gs
  unfolding candidates non_empty
  get_groups_stored key g gs w w1 p h =
      let (tail, w', e, perm) = shuffle_tail-Perm g gs w1 p in
      (
        tail,
        w',
        get_groups_of key [] (g ∷ tail) w w'
            (bind_ok (stored_groups x c key) (shuffle_tail x c) w w1 (g ∷ gs) h ∙ e),
        perm,
      )

  -- Where the metabase cannot be asked or the question fails in whatever way, the configured groups
  -- are the stored ones.
  pub stored_groups_failed :
      (key : Key) (w w1 : World) (e : Exception)
      → (has_meta_info x c ≡ true → get_meta_info x c key w ≡ (throw e, w1))
      → (stored_groups x c key w).0 ≡ ok c.groups
  unfolding stored_groups
  stored_groups_failed key w w1 e h = elim (Bool-cases (has_meta_info x c)) [
    | inl on ↦ rw on (ap (λ r. (handle (λ e. true) (λ e. pure c.groups) r).0) (h on))
    | inr off ↦ rw off refl
  ]

  -- A call with no groups of its own fails, for the reason that there are none, if none are stored.
  pub get_groups_none :
      (key : Key) (w w1 : World)
      → stored_groups x c key w ≡ (ok [], w1)
      → get_groups x c key [] (pos 0) w ≡ (throw (runtime_error no_groups), w1)
  unfolding candidates non_empty shuffle_tail
  get_groups_none key w w1 h =
      get_groups_of key [] [] w w1 (bind_ok (stored_groups x c key) (shuffle_tail x c) w w1 [] h)
