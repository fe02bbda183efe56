-- ===== src/Storage/Filesystem/Disk/Sound.antt =====
-- The file systems in which every entry stands in a directory and no two names share a file, and the
-- places that paths without `..` name in them.
use btdt.Prelude.{
  ℕ, ◌<◌, ◌≡◌, ◌≢◌, refl, sym, Option, none, some, [], ◌∷◌, arith, Bytes, ite, length, Option-cases,
  inl, inr,
}
use mathlib.Core.Path.{subst}
use btdt.Io.{ok, ok-subst, ErrorKind}
use btdt.Storage.Filesystem.Paths.{Component, root_dir, cur_dir, parent_dir, normal, PathBuf}
use btdt.Storage.Filesystem.Disk.Names.{
  Location, location_dec, remove, lookup-remove, lookup-assign,
}
use btdt.Storage.Filesystem.Disk.{
  Node, directory, special, regular, DiskState, node_at, assigned, step, walk, resolve,
}

-- There is no hard link, and no file without a content.
pub record IsSound (d : DiskState) : Type 0 where
  pub closed :
      (n : Bytes) (l : Location) (x : Node)
      → node_at d (n ∷ l) ≡ some x
      → node_at d l ≡ some directory
  pub in_range : (l : Location) (i : ℕ) → node_at d l ≡ some (regular i) → i < length d.files
  pub distinct :
      (l m : Location) (i : ℕ)
      → node_at d l ≡ some (regular i)
      → node_at d m ≡ some (regular i)
      → l ≡ m

-- The location stands in a directory.
abbrev pub HasParent : DiskState → Location → Type 0
HasParent d [] = Unit
HasParent d (n ∷ l) = node_at d l ≡ some directory

pub node_at-assigned :
    (d : DiskState) (l m : Location) (n : Node)
    → node_at d l ≢ some directory
    → node_at (assigned l n d) m ≡ ite (location_dec l m) (some n) (node_at d m)
unfolding node_at
node_at-assigned d [] m n h = absurd (h refl)
node_at-assigned d (k ∷ l) [] n h = ground arith
node_at-assigned d (k ∷ l) (j ∷ m) n h = lookup-assign (k ∷ l) (j ∷ m) n d.nodes

pub node_at-remove :
    (d : DiskState) (l m : Location)
    → node_at d l ≢ some directory
    → node_at (record d { nodes = remove l d.nodes }) m ≡ ite (location_dec l m) none (node_at d m)
unfolding node_at
node_at-remove d [] m h = absurd (h refl)
node_at-remove d (k ∷ l) [] h = ground arith
node_at-remove d (k ∷ l) (j ∷ m) h = lookup-remove (k ∷ l) (j ∷ m) d.nodes

pub HasParent-there :
    (d : DiskState) (l : Location) (x : Node) → IsSound d → node_at d l ≡ some x → HasParent d l
HasParent-there d [] x s h = tt
HasParent-there d (n ∷ l) x s h = s.closed n l x h

step-HasParent :
    (d : DiskState) (c : Component) (l : Location)
    → IsSound d
    → node_at d l ≡ some directory
    → HasParent d (step c l)
step-HasParent d root_dir l s h = tt
step-HasParent d cur_dir l s h = HasParent-there d l directory s h
step-HasParent d parent_dir [] s h = tt
step-HasParent d parent_dir (n ∷ l) s h = HasParent-there d l directory s (s.closed n l directory h)
step-HasParent d (normal n) l s h = h

pub walk-HasParent :
    (d : DiskState) (p : PathBuf) (l m : Location)
    → IsSound d
    → HasParent d l
    → walk d l p ≡ ok m
    → HasParent d m
unfolding walk
walk-HasParent d [] l m s a h = ok-subst {E = ErrorKind} (HasParent d) h a
walk-HasParent d (c ∷ p) l m s a h = elim (Option-cases (node_at d l)) [
  | inl e ↦ absurd (ground arith)
  | inr (directory, e) ↦ walk-HasParent d p (step c l) m s (step-HasParent d c l s e) (ground arith)
  | inr (special, e) ↦ absurd (ground arith)
  | inr (regular i, e) ↦ absurd (ground arith)
]

from :
    (d : DiskState) (c : Component) (p : PathBuf) (m : Location)
    → IsSound d
    → walk d d.cwd (c ∷ p) ≡ ok m
    → HasParent d m
unfolding walk
from d c p m s h = elim (Option-cases (node_at d d.cwd)) [
  | inl e ↦ absurd (ground arith)
  | inr (directory, e) ↦
      walk-HasParent d p (step c d.cwd) m s (step-HasParent d c d.cwd s e) (ground arith)
  | inr (special, e) ↦ absurd (ground arith)
  | inr (regular i, e) ↦ absurd (ground arith)
]

pub resolve-HasParent :
    (d : DiskState) (p : PathBuf) (m : Location) → IsSound d → resolve d p ≡ ok m → HasParent d m
unfolding resolve walk
resolve-HasParent d [] m s h = absurd (ground arith)
resolve-HasParent d (root_dir ∷ p) m s h = walk-HasParent d p [] m s tt h
resolve-HasParent d (cur_dir ∷ p) m s h = from d cur_dir p m s h
resolve-HasParent d (parent_dir ∷ p) m s h = from d parent_dir p m s h
resolve-HasParent d (normal n ∷ p) m s h = from d (normal n) p m s h

-- Where a path of names leads.
unfoldable pub descend : Location → PathBuf → Option Location
descend l [] = some l
descend l (normal n ∷ p) = descend (n ∷ l) p
descend l (c ∷ p) = none

unfoldable pub locate : PathBuf → Option Location
unfolding descend
locate (root_dir ∷ p) = descend [] p
locate p = none

walk-descend :
    (d : DiskState) (p : PathBuf) (l m k : Location)
    → descend l p ≡ some k
    → walk d l p ≡ ok m
    → m ≡ k
unfolding descend walk
walk-descend d [] l m k a h = ground arith
walk-descend d (normal n ∷ p) l m k a h = elim (Option-cases (node_at d l)) [
  | inl e ↦ absurd (ground arith)
  | inr (directory, e) ↦ walk-descend d p (n ∷ l) m k a (ground arith)
  | inr (special, e) ↦ absurd (ground arith)
  | inr (regular i, e) ↦ absurd (ground arith)
]
walk-descend d (root_dir ∷ p) l m k a h = absurd (ground arith)
walk-descend d (cur_dir ∷ p) l m k a h = absurd (ground arith)
walk-descend d (parent_dir ∷ p) l m k a h = absurd (ground arith)

-- A path of names leads nowhere but to its place.
pub resolve-locate :
    (d : DiskState) (p : PathBuf) (m k : Location) → locate p ≡ some k → resolve d p ≡ ok m → m ≡ k
unfolding locate resolve
resolve-locate d (root_dir ∷ p) m k a h = walk-descend d p [] m k a h
resolve-locate d [] m k a h = absurd (ground arith)
resolve-locate d (cur_dir ∷ p) m k a h = absurd (ground arith)
resolve-locate d (parent_dir ∷ p) m k a h = absurd (ground arith)
resolve-locate d (normal n ∷ p) m k a h = absurd (ground arith)

-- Above a location that exists there are directories.
descend-HasParent :
    (d : DiskState) (p : PathBuf) (l k : Location)
    → IsSound d
    → descend l p ≡ some k
    → HasParent d k
    → HasParent d l
unfolding descend
descend-HasParent d [] l k s a h = let e : l ≡ k = ground arith in subst (HasParent d) (sym e) h
descend-HasParent d (normal n ∷ p) l k s a h =
    HasParent-there d l directory s (descend-HasParent d p (n ∷ l) k s a h)
descend-HasParent d (root_dir ∷ p) l k s a h = absurd (ground arith)
descend-HasParent d (cur_dir ∷ p) l k s a h = absurd (ground arith)
descend-HasParent d (parent_dir ∷ p) l k s a h = absurd (ground arith)

walk-there :
    (d : DiskState) (p : PathBuf) (l k : Location)
    → IsSound d
    → descend l p ≡ some k
    → HasParent d k
    → walk d l p ≡ ok k
unfolding descend walk
walk-there d [] l k s a h = ground arith
walk-there d (normal n ∷ p) l k s a h =
    rw (walk, descend-HasParent d p (n ∷ l) k s a h) (walk-there d p (n ∷ l) k s a h)
walk-there d (root_dir ∷ p) l k s a h = absurd (ground arith)
walk-there d (cur_dir ∷ p) l k s a h = absurd (ground arith)
walk-there d (parent_dir ∷ p) l k s a h = absurd (ground arith)

-- A path of names leads to its place, if that stands in a directory.
pub resolve-there :
    (d : DiskState) (p : PathBuf) (k : Location)
    → IsSound d
    → locate p ≡ some k
    → HasParent d k
    → resolve d p ≡ ok k
unfolding locate resolve
resolve-there d (root_dir ∷ p) k s a h = walk-there d p [] k s a h
resolve-there d [] k s a h = absurd (ground arith)
resolve-there d (cur_dir ∷ p) k s a h = absurd (ground arith)
resolve-there d (parent_dir ∷ p) k s a h = absurd (ground arith)
resolve-there d (normal n ∷ p) k s a h = absurd (ground arith)
