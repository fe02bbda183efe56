-- ===== src/Storage/Filesystem/Disk/Names.antt =====
-- The names of a file system: a location is the list of its names, the innermost first.
use native.Mathlib.Decide.{ℕ_discrete}
use btdt.Prelude.{
  ◌≡◌, Bool, true, false, ◌||◌, Option, none, some, List, [], ◌∷◌, Bytes, ite, arith,
}

abbrev pub Location : Type 0
Location = List Bytes

unfoldable pub location_dec : Discrete Location
unfolding ℕ_discrete
location_dec = hlevel ℕ_discrete

abbrev pub is_child : Location → Location → Bool
is_child l [] = false
is_child l (n ∷ m) = ite (location_dec m l) true false

module _ {A : Type 0} where
  unfoldable pub lookup : Location → List (Location × A) → Option A
  unfolding location_dec
  lookup l [] = none
  lookup l ((m, a) ∷ names) = let rest = lookup l names in ite (location_dec m l) (some a) rest

  unfoldable pub remove : Location → List (Location × A) → List (Location × A)
  unfolding location_dec
  remove l [] = []
  remove l ((m, a) ∷ names) =
      let rest = remove l names in ite (location_dec m l) rest ((m, a) ∷ rest)

  unfoldable pub assign : Location → A → List (Location × A) → List (Location × A)
  unfolding remove
  assign l a names = (l, a) ∷ remove l names

  unfoldable pub has_child : Location → List (Location × A) → Bool
  unfolding location_dec
  has_child l [] = false
  has_child l ((m, a) ∷ names) = let rest = has_child l names in is_child l m || rest

  pub lookup-remove :
      (l m : Location) (names : List (Location × A))
      → lookup m (remove l names) ≡ ite (location_dec l m) none (lookup m names)
  unfolding lookup remove
  lookup-remove l m [] = ground arith
  lookup-remove l m ((k, a) ∷ names) = ground (arith, lookup-remove l m names)

  pub lookup-assign :
      (l m : Location) (a : A) (names : List (Location × A))
      → lookup m (assign l a names) ≡ ite (location_dec l m) (some a) (lookup m names)
  unfolding lookup assign
  lookup-assign l m a names = ground (arith, lookup-remove l m names)
