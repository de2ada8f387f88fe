-- ===== src/Resource/Ownership.antt =====
-- Who owns a pointer that was given to an object of src/resource.hpp.
use libelliptics_proxy.Base.{
  ℕ, zero, suc, ◌+◌, ◌≢◌, ◌≡◌, refl, Bool, true, false, List, [], ◌∷◌, ◌++◌, Option, none, some,
  ◌==◌, if◌then◌else◌, arith,
}
use libelliptics_proxy.Resource.{
  Ptr, null, Objects, Use, construct, copy, assign, reset_at, release_at, destruct, cell, set_cell,
  no_objects, reset_cell, copy_cell, release_cell, assign_cell, use_objects, use_all, reset,
  release,
}

abbrev pub one : Ptr → Ptr → ℕ
one p q = if p == q then 1 else 0

abbrev pub count : Ptr → List Ptr → ℕ
count p [] = 0
count p (q ∷ qs) = one p q + count p qs

-- The pointers that a call hands to an object.
abbrev pub given : Use → List Ptr
given (construct p) = p ∷ []
given (reset_at i p) = p ∷ []
given _ = []

abbrev pub given_all : List Use → List Ptr
given_all [] = []
given_all (u ∷ us) = given u ++ given_all us

abbrev pub accounted : Ptr → Objects → ℕ
accounted p s = count p s.cells + count p s.destroyed + count p s.released

count-append : (p : Ptr) (qs rs : List Ptr) → count p (qs ++ rs) ≡ count p qs + count p rs
count-append p [] rs = omega arith
count-append p (q ∷ qs) rs = omega (arith, count-append p qs rs)

count-set_cell :
    (p q r : Ptr) (i : ℕ) (cells : List Ptr)
    → cell i cells ≡ some q
    → count p (set_cell i r cells) + one p q ≡ count p cells + one p r
count-set_cell p q r i [] h = absurd cc
count-set_cell p q r zero (c ∷ cells) h = ground arith
count-set_cell p q r (suc i) (c ∷ cells) h = omega (arith, count-set_cell p q r i cells h)

module _ (p : Ptr) (held : p ≢ null) where
  reset_cell-accounted :
      (i : ℕ) (q : Ptr) (s s' : Objects)
      → reset_cell i q s ≡ some s'
      → accounted p s' ≡ one p q + accounted p s
  unfolding reset_cell reset
  reset_cell-accounted i q s s' h = by_value (cell i s.cells) refl
    where
      by_value : (o : Option Ptr) → cell i s.cells ≡ o → accounted p s' ≡ one p q + accounted p s
      by_value none e = ground (arith, e, h)
      by_value (some v) e = ground (arith, e, h, count-set_cell p v q i s.cells e)

  release_cell-accounted :
      (i : ℕ) (q : Ptr) (s s' : Objects)
      → release_cell i s ≡ some (q, s')
      → one p q + accounted p s' ≡ accounted p s
  unfolding release_cell release
  release_cell-accounted i q s s' h = by_value (cell i s.cells) refl
    where
      by_value : (o : Option Ptr) → cell i s.cells ≡ o → one p q + accounted p s' ≡ accounted p s
      by_value none e = ground (arith, e, h)
      by_value (some v) e = ground (arith, e, h, count-set_cell p v null i s.cells e)

  copy_cell-accounted :
      (i : ℕ) (s s' : Objects) → copy_cell i s ≡ some s' → accounted p s' ≡ accounted p s
  unfolding copy_cell
  copy_cell-accounted i s s' h = by_value (cell i s.cells) refl
    where
      by_value : (o : Option Ptr) → cell i s.cells ≡ o → accounted p s' ≡ accounted p s
      by_value none e = ground (arith, e, h)
      by_value (some v) e = ground (
        arith,
        e,
        h,
        count-set_cell p v null i s.cells e,
        count-append p (set_cell i null s.cells) (v ∷ []),
      )

  assign_cell-accounted :
      (i j : ℕ) (s s' : Objects) → assign_cell i j s ≡ some s' → accounted p s' ≡ accounted p s
  unfolding assign_cell
  assign_cell-accounted i j s s' h = by_place (j == i) (release_cell j s) refl refl
    where
      by_place :
          (b : Bool) (o : Option (Ptr × Objects))
          → (j == i) ≡ b
          → release_cell j s ≡ o
          → accounted p s' ≡ accounted p s
      by_place true o self e = ground (arith, self, h)
      by_place false none self e = ground (arith, self, e, h)
      by_place false (some (q, t)) self e = omega (
        arith,
        release_cell-accounted j q s t e,
        reset_cell-accounted i q t s' (ground (arith, self, e, h)),
      )

  use_objects-accounted :
      (u : Use) (s s' : Objects)
      → use_objects u s ≡ some s'
      → accounted p s' ≡ count p (given u) + accounted p s
  unfolding use_objects
  use_objects-accounted (construct q) s s' h = ground (arith, h, count-append p s.cells (q ∷ []))
  use_objects-accounted (copy i) s s' h = omega (arith, copy_cell-accounted i s s' h)
  use_objects-accounted (assign i j) s s' h = omega (arith, assign_cell-accounted i j s s' h)
  use_objects-accounted (reset_at i q) s s' h = omega (arith, reset_cell-accounted i q s s' h)
  use_objects-accounted (release_at i) s s' h = by_result (release_cell i s) refl
    where
      by_result :
          (o : Option (Ptr × Objects)) → release_cell i s ≡ o → accounted p s' ≡ 0 + accounted p s
      by_result none e = ground (arith, e, h)
      by_result (some (q, t)) e = ground (arith, e, h, release_cell-accounted i q s t e)
  use_objects-accounted (destruct i) s s' h = ground (arith, reset_cell-accounted i null s s' h)

  use_all-accounted :
      (us : List Use) (s s' : Objects)
      → use_all us s ≡ some s'
      → accounted p s' ≡ count p (given_all us) + accounted p s
  unfolding use_all
  use_all-accounted [] s s' h = ground (arith, h)
  use_all-accounted (u ∷ us) s s' h =
      by_result (use_objects u s) refl (λ t. use_all-accounted us t s')
    where
      by_result :
          (o : Option Objects)
          → use_objects u s ≡ o
          → ((t : Objects)
              → use_all us t ≡ some s'
              → accounted p s' ≡ count p (given_all us) + accounted p t)
          → accounted p s' ≡ count p (given u ++ given_all us) + accounted p s
      by_result none e rest = ground (arith, e, h)
      by_result (some t) e rest = omega (
        arith,
        count-append p (given u) (given_all us),
        use_objects-accounted u s t e,
        rest t (ground (arith, e, h)),
      )

  -- However objects are constructed, copied, assigned, reset, released and destroyed, a pointer that
  -- is not NULL is held by objects, destroyed or released as often as it was handed to an object: an
  -- owner passes it on in a copy or an assignment, also to itself, and none is lost or destroyed
  -- twice.
  pub use_all-no_objects :
      (us : List Use) (s : Objects)
      → use_all us no_objects ≡ some s
      → count p s.cells + count p s.destroyed + count p s.released ≡ count p (given_all us)
  use_all-no_objects us s h = omega (arith, use_all-accounted us no_objects s h)
