-- ===== src/Storage/Filesystem/Reading.antt =====
-- What `get` of storage/filesystem/mod.rs finds at a path.
use btdt.Prelude.{
  ℕ, ◌≤◌, ◌≡◌, refl, Option, none, some, [], ◌∷◌, arith, Bytes, length, take, Option-cases, inl,
  inr, ◌⊎◌,
}
use mathlib.Core.Path.{subst}
use btdt.Io.{Result-cases, ok, err, IoPathError, error_at, not_found}
use btdt.Storage.{FileHandle}
use btdt.Storage.Filesystem.Paths.{PathBuf, root_dir, cur_dir, parent_dir, normal, render}
use btdt.Storage.Filesystem.Places.{locate-root}
use btdt.Storage.Filesystem.Disk.{
  DiskState, Node, directory, special, regular, node_at, content, walk, resolve, stat, open_file,
  error,
}
use btdt.Storage.Filesystem.Disk.Names.{Location}
use btdt.Storage.Filesystem.Disk.Sound.{IsSound, locate, descend, resolve-there, HasParent-there}
use btdt.Storage.Filesystem.Opened.{place}
use btdt.Storage.Filesystem.View.{IsFree, content_at, size_of}
use btdt.Storage.Filesystem.{Host, State, canonical_path, get, read_exact}

-- A path with a place is a canonical path that leads there.
pub place_path :
    (H : Host) (root : PathBuf) (path : Bytes) (k : Location)
    → place H root path ≡ some k
    → (p : PathBuf) × (canonical_path H root path ≡ ok p) × (locate p ≡ some k)
unfolding place
place_path H root path k h = elim (Result-cases (canonical_path H root path)) [
  | inl (p, a) ↦ (p, a, (rw (place, a) at h))
  | inr (x, a) ↦ absurd (ground arith)
]

-- A content is that of a regular file.
pub content_at-regular :
    (d : DiskState) (o : Option Location) (c : Bytes)
    → content_at d o ≡ some c
    → (k : Location) × (i : ℕ) × (o ≡ some k) × (node_at d k ≡ some (regular i)) × (content d i ≡ c)
content_at-regular d none c h = absurd (ground arith)
content_at-regular d (some k) c h = elim (Option-cases (node_at d k)) [
  | inl a ↦ absurd (ground arith)
  | inr (directory, a) ↦ absurd (ground arith)
  | inr (special, a) ↦ absurd (ground arith)
  | inr (regular i, a) ↦ (k, i, refl, a, ground arith)
]

stat-resolve :
    (d : DiskState) (p : PathBuf) (k : Location) (o : Option Node)
    → resolve d p ≡ ok k
    → node_at d k ≡ o
    → stat d p ≡ elim o [ none ↦ err not_found | some n ↦ ok n ]
unfolding stat
stat-resolve d p k o a b = rw (← b) (ground arith)

-- The files of the disk can be opened, and `allocated_size` of a file succeeds.
pub record CanRead (H : Host) : Type 0 where
  pub opens : (i : ℕ) → H.open_error (regular i) ≡ none
  pub sized : (c : Bytes) → H.allocated_size (some c) ≡ ok (size_of (H.allocated_size (some c)))

pub get_found :
    (H : Host) (root : PathBuf) (p c : Bytes) (s : State)
    → CanRead H
    → IsSound s.disk
    → content_at s.disk (place H root p) ≡ some c
    → (h : FileHandle Node) × (get H root p s ≡ ok h)
      × (h.size_hint ≡ size_of (H.allocated_size (some c)))
      × ((n : ℕ) → n ≤ length c → read_exact H root h.reader n s ≡ ok (take n c))
unfolding get open_file read_exact
get_found H root path c s can sound h =
    let (k, i, a, b, e) = content_at-regular s.disk (place H root path) c h in
    let (p, f, g) = place_path H root path k a in
    (
      record {
        size_hint = size_of (H.allocated_size (some (content s.disk i)));
        reader = regular i;
      },
      rw
          (
            get,
            f,
            open_file,
            stat-resolve s.disk p k (some (regular i))
                (resolve-there s.disk p k sound g (HasParent-there s.disk k (regular i) sound b)) b,
            can.opens i,
            can.sized (content s.disk i),
          )
          refl,
      rw e refl,
      λ n le. rw (read_exact, e) (ground arith),
    )

-- Above a free location there is nothing but directories that are there, and what is free.
above-IsFree :
    (d : DiskState) (p : PathBuf) (l k : Location)
    → IsSound d
    → descend l p ≡ some k
    → IsFree d k
    → (node_at d l ≡ some directory) ⊎ (IsFree d l)
unfolding descend
above-IsFree d [] l k s h f = inr (subst (IsFree d) (ground arith) f)
above-IsFree d (normal n ∷ p) l k s h f = elim (above-IsFree d p (n ∷ l) k s h f) [
  | inl a ↦ inl (s.closed n l directory a)
  | inr a ↦ a.1
]
above-IsFree d (root_dir ∷ p) l k s h f = absurd (ground arith)
above-IsFree d (cur_dir ∷ p) l k s h f = absurd (ground arith)
above-IsFree d (parent_dir ∷ p) l k s h f = absurd (ground arith)

IsFree-none : (d : DiskState) (l : Location) → IsFree d l → node_at d l ≡ none
IsFree-none d [] h = absurd h
IsFree-none d (n ∷ l) h = h.0

-- The way to a free location ends there, or at nothing.
walk-IsFree :
    (d : DiskState) (p : PathBuf) (l k : Location)
    → IsSound d
    → descend l p ≡ some k
    → IsFree d k
    → (walk d l p ≡ ok k) ⊎ (walk d l p ≡ err not_found)
unfolding walk descend
walk-IsFree d [] l k s h f = inl (ground arith)
walk-IsFree d (normal n ∷ p) l k s h f = elim (above-IsFree d (normal n ∷ p) l k s h f) [
  | inl a ↦ rw (walk, a) (walk-IsFree d p (n ∷ l) k s h f)
  | inr a ↦ inr (rw (walk, IsFree-none d l a) refl)
]
walk-IsFree d (root_dir ∷ p) l k s h f = absurd (ground arith)
walk-IsFree d (cur_dir ∷ p) l k s h f = absurd (ground arith)
walk-IsFree d (parent_dir ∷ p) l k s h f = absurd (ground arith)

stat-IsFree :
    (d : DiskState) (p : PathBuf) (k : Location)
    → IsSound d
    → locate p ≡ some k
    → IsFree d k
    → stat d p ≡ err not_found
unfolding stat resolve
stat-IsFree d p k s a f =
    let (r, b, c) = locate-root p k a in
    elim (walk-IsFree d r [] k s c f) [
      | inl g ↦ stat-resolve d p k none (rw b g) (IsFree-none d k f)
      | inr g ↦ rw b (ground arith)
    ]

pub get_absent :
    (H : Host) (root : PathBuf) (p : Bytes) (k : Location) (s : State)
    → IsSound s.disk
    → place H root p ≡ some k
    → IsFree s.disk k
    → (e : IoPathError) × (get H root p s ≡ err e) × (e.error.kind ≡ not_found)
unfolding get open_file
get_absent H root path k s sound a f =
    let (p, b, c) = place_path H root path k a in
    (
      error_at (error not_found) (render p),
      rw (get, b, open_file, stat-IsFree s.disk p k sound c f) refl,
      refl,
    )
