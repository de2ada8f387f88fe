-- ===== src/Resource.antt =====
-- `resource` of src/resource.hpp, the owner of one pointer: the proxy's HTTP client keeps its handle
-- and its list of headers in such objects. A pointer is a number, 0 is NULL, which is the default
-- value of `resource_traits<Type *>`; `get`, `operator->` and the conversion to `bool` read the
-- value as it is. What a trait destroys goes on record.
pub mod Ownership
use libelliptics_proxy.Base.{
  ℕ, zero, suc, Bool, not, List, [], ◌∷◌, ◌++◌, Option, none, some, ◌==◌, if◌then◌else◌,
}

abbrev pub Ptr : Type 0
Ptr = ℕ

-- `resource_traits<Type *>::default_value`.
abbrev pub null : Ptr
null = 0

-- The conversion to `bool`.
abbrev pub is_held : Ptr → Bool
is_held value = not (null == value)

-- The value that is given away, and the one that stays.
unfoldable pub release : Ptr → Ptr × Ptr
release value = (value, null)

-- The value that stays, and what is destroyed on the way.
unfoldable pub reset : Ptr → Ptr → Ptr × List Ptr
reset value new_value = (new_value, if is_held value then value ∷ [] else [])

-- The objects of a program in the order of their construction, the pointers destroyed by them, and
-- those that `release` gave to its callers.
pub record Objects : Type 0 where
  pub cells : List Ptr
  pub destroyed : List Ptr
  pub released : List Ptr

abbrev pub no_objects : Objects
no_objects = record { cells = []; destroyed = []; released = [] }

-- Calls on objects, by their place.
pub data Use : Type 0 where
  construct : Ptr → Use
  copy : ℕ → Use
  assign : ℕ → ℕ → Use
  reset_at : ℕ → Ptr → Use
  release_at : ℕ → Use
  destruct : ℕ → Use

abbrev pub cell : ℕ → List Ptr → Option Ptr
cell i [] = none
cell zero (p ∷ ps) = some p
cell (suc i) (p ∷ ps) = cell i ps

abbrev pub set_cell : ℕ → Ptr → List Ptr → List Ptr
set_cell i p [] = []
set_cell zero p (q ∷ ps) = p ∷ ps
set_cell (suc i) p (q ∷ ps) = q ∷ set_cell i p ps

-- `reset` of the object at a place; there is none at a place that was not constructed.
unfoldable pub reset_cell : ℕ → Ptr → Objects → Option Objects
unfolding reset
reset_cell i p s = elim (cell i s.cells) [
  | none ↦ none
  | some value ↦
      let (stays, gone) = reset value p in
      some (record s { cells = set_cell i stays s.cells; destroyed = gone ++ s.destroyed })
]

-- The copy constructor swaps the values of a new object and of its argument.
unfoldable pub copy_cell : ℕ → Objects → Option Objects
copy_cell i s = elim (cell i s.cells) [
  | none ↦ none
  | some value ↦ some (record s { cells = set_cell i null s.cells ++ (value ∷ []) })
]

unfoldable pub release_cell : ℕ → Objects → Option (Ptr × Objects)
unfolding release
release_cell i s = elim (cell i s.cells) [
  | none ↦ none
  | some value ↦
      let (given, stays) = release value in
      some (given, record s { cells = set_cell i stays s.cells })
]

-- `operator =`.
unfoldable pub assign_cell : ℕ → ℕ → Objects → Option Objects
unfolding reset_cell release_cell
assign_cell i j s =
    if j == i
    then some s
    else elim (release_cell j s) [ none ↦ none | some (given, s') ↦ reset_cell i given s' ]

unfoldable pub use_objects : Use → Objects → Option Objects
unfolding reset_cell copy_cell release_cell assign_cell
use_objects (construct p) s = some (record s { cells = s.cells ++ (p ∷ []) })
use_objects (copy i) s = copy_cell i s
use_objects (assign i j) s = assign_cell i j s
use_objects (reset_at i p) s = reset_cell i p s
use_objects (release_at i) s = elim (release_cell i s) [
  | none ↦ none
  | some (given, s') ↦ some (record s' { released = given ∷ s'.released })
]
use_objects (destruct i) s = reset_cell i null s

unfoldable pub use_all : List Use → Objects → Option Objects
unfolding use_objects
use_all [] s = some s
use_all (u ∷ us) s = elim (use_objects u s) [ none ↦ none | some s' ↦ use_all us s' ]
