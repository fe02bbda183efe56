-- ===== src/Storage/Filesystem/Opened.antt =====
-- The writers that `put` of storage/filesystem/mod.rs opens.
use btdt.Prelude.{
  ◌⊎◌, arith, ◌≡◌, refl, ◌∙◌, sym, ap, true, Option, none, some, [], ◌∷◌, Bytes, Option-cases,
  Bool-cases, inl, inr,
}
use mathlib.Core.Path.{subst}
use btdt.Io.{Result-cases, ok, err, err-ok, IoPathResult}
use btdt.Storage.Filesystem.Paths.{
  last_name, trimmed, PathBuf, root_dir, normal, join, parent, split_last, file_name,
  with_file_name,
}
use btdt.Storage.Filesystem.Places.{tmp_at, locate-replace_last, last_name-some, split_last-root}
use btdt.Prelude.Utf8.{is_utf8}
use btdt.Storage.Filesystem.Staged.{file_name_str, StagedFile, Locking, new_with_suffix, tmp_name}
use btdt.Storage.Filesystem.Disk.{DiskState, directory, node_at, exists, create_dir, stat}
use btdt.Storage.Filesystem.Disk.Names.{Location}
use btdt.Storage.Filesystem.Disk.Sound.{
  IsSound, locate, resolve-locate, resolve-there, HasParent-there,
}
use btdt.Storage.Filesystem.Disk.Adds.{Adds, refl-Adds}
use btdt.Storage.Filesystem.Canonical.{
  trimmed_same, locate_unmarked, canonical_path_segments, IsForward, descend-some,
}
use btdt.Storage.Filesystem.Put.{IsFresh, create_and_lock-Adds, create_and_lock_ok}
use btdt.Storage.Filesystem.{Host, canonical_path, is_parent_dir, create_dirs, make_parents}

-- The place of a path in the storage, if it has one.
abbrev pub place_of : IoPathResult PathBuf → Option Location
place_of (ok p) = locate p
place_of (err e) = none

unfoldable pub place : Host → PathBuf → Bytes → Option Location
unfolding canonical_path locate
place H root path = place_of (canonical_path H root path)

-- The place that a file of the path is written to, also where the path ends in a slash.
abbrev pub base_of : IoPathResult PathBuf → Option Location
base_of (ok p) = locate (trimmed p)
base_of (err e) = none

unfoldable pub base_place : Host → PathBuf → Bytes → Option Location
unfolding canonical_path locate trimmed
base_place H root path = base_of (canonical_path H root path)

-- A path has its place, or ends in a slash and has none.
pub place-cases :
    (H : Host) (root : PathBuf) (path : Bytes)
    → (place H root path ≡ base_place H root path) ⊎ (place H root path ≡ none)
unfolding place base_place
place-cases H root path = elim (Result-cases (canonical_path H root path)) [
  | inr (e, a) ↦ inr (rw (place, a) refl)
  | inl (p, a) ↦ elim (Option-cases (locate p)) [
    | inl b ↦ inr (rw (place, a) b)
    | inr (k, b) ↦ inl (rw (place, base_place, a, trimmed_same p (locate_unmarked p k b)) refl)
  ]
]

-- A temporary file of the path, with the suffix.
abbrev pub Beside : PathBuf → Bytes → Location → Type 0
Beside target suffix l = (k : Location) → locate (trimmed target) ≡ some k → l ≡ tmp_at suffix k

file_name_str-some :
    (p : PathBuf) (n : Bytes) → file_name_str p ≡ some n → last_name (trimmed p) ≡ some n
unfolding file_name_str file_name
file_name_str-some p n h = elim (Option-cases (file_name p)) [
  | inl a ↦ absurd (ground arith)
  | inr (m, a) ↦ elim (Bool-cases (is_utf8 m)) [
    | inl b ↦ ground arith
    | inr b ↦ absurd (ground arith)
  ]
]

pub new_with_suffix-Adds :
    (K : Locking) (target : PathBuf) (suffix : Bytes) (d : DiskState)
    → IsSound d
    → Adds (Beside target suffix) d (new_with_suffix K target suffix d).0
unfolding new_with_suffix with_file_name
new_with_suffix-Adds K target suffix d s = elim (Option-cases (file_name_str target)) [
  | inl a ↦ rw (new_with_suffix, a) (refl-Adds d s)
  | inr (n, a) ↦
      rw (new_with_suffix, a)
        (create_and_lock-Adds K 5 target (with_file_name (tmp_name n suffix) target) d s
          (λ e l h k g.
            resolve-locate e (with_file_name (tmp_name n suffix) target) l (tmp_at suffix k)
              (locate-replace_last (trimmed target) n suffix k (file_name_str-some target n a) g)
              h))
]

-- A writer that was opened has the name of a file, and writes to the temporary file beside it.
pub new_with_suffix_ok :
    (K : Locking) (target : PathBuf) (suffix : Bytes) (d : DiskState) (w : StagedFile)
    → (new_with_suffix K target suffix d).1 ≡ ok w
    → (n : Bytes) × (last_name (trimmed target) ≡ some n)
      × ((k : Location)
          → locate (trimmed target) ≡ some k
          → (tmp : PathBuf) × (locate tmp ≡ some (tmp_at suffix k))
            × IsFresh target tmp (tmp_at suffix k) (new_with_suffix K target suffix d).0 w)
unfolding new_with_suffix with_file_name
new_with_suffix_ok K target suffix d w h = elim (Option-cases (file_name_str target)) [
  | inl a ↦ absurd (err-ok _ _ (rw (new_with_suffix, a) at h))
  | inr (n, a) ↦ (
    n,
    file_name_str-some target n a,
    λ k g.
        let tmp = with_file_name (tmp_name n suffix) target in
        let there =
          locate-replace_last (trimmed target) n suffix k (file_name_str-some target n a) g in
        (
          tmp,
          there,
          rw (new_with_suffix, a)
              (create_and_lock_ok K 5 target tmp d (tmp_at suffix k) w there
                (rw (new_with_suffix, a) at h)),
        ),
  )
]

-- The loop refuses every step to the parent directory.
pub create_dirs_ok :
    (path p : PathBuf) (d : DiskState) → (create_dirs path p d).1 ≡ ok tt → IsForward p
unfolding create_dirs
create_dirs_ok path [] d h = tt
create_dirs_ok path (c ∷ cs) d h = elim (Bool-cases (is_parent_dir c)) [
  | inl a ↦ absurd (err-ok _ _ (rw (create_dirs, a) at h))
  | inr a ↦
      let next = join path (c ∷ []) in
      elim (Bool-cases (exists d next)) [
        | inl b ↦ (a, create_dirs_ok next cs d (rw (create_dirs, a, b) at h))
        | inr b ↦ elim (Result-cases (create_dir next d).1) [
          | inl (u, e) ↦
              (a, create_dirs_ok next cs (create_dir next d).0 (rw (create_dirs, a, b, e) at h))
          | inr (x, e) ↦ absurd (err-ok _ _ (rw (create_dirs, a, b, e) at h))
        ]
      ]
]

exists-there :
    (d : DiskState) (p : PathBuf) (k : Location)
    → IsSound d
    → locate p ≡ some k
    → node_at d k ≡ some directory
    → exists d p ≡ true
unfolding exists stat
exists-there d p k s a h =
    rw (exists, stat, resolve-there d p k s a (HasParent-there d k directory s h), h) refl

parent-some :
    (p q : PathBuf) (n : Bytes) → split_last (trimmed p) ≡ some (q, normal n) → parent p ≡ some q
unfolding parent
parent-some p q n h = rw (parent, h) refl

module _ (H : Host) (root : PathBuf) (base : Location) (absolute : locate root ≡ some base) where
  -- In a storage whose root is there, what `put` opens has a place.
  pub place_some :
      (path : Bytes) (p : PathBuf) (n : Bytes) (d : DiskState)
      → IsSound d
      → node_at d base ≡ some directory
      → canonical_path H root path ≡ ok p
      → last_name (trimmed p) ≡ some n
      → (make_parents H root p d).1 ≡ ok tt
      → (k : Location) × (locate (trimmed p) ≡ some k)
  unfolding make_parents locate
  place_some path p n d s there h f g =
      let (t, e, seg) = canonical_path_segments H root base absolute path p h in
      let (q, a) = last_name-some (trimmed p) n f in
      let (r, b, c) = split_last-root t q n (ap split_last (sym e) ∙ a) in
      let made : (create_dirs [] q d).1 ≡ ok tt =
        (rw (make_parents, exists-there d root base s absolute there, parent-some p q n a) at g) in
      let forward : IsForward (root_dir ∷ r) = subst IsForward b (create_dirs_ok [] q d made) in
      let (k, m) = descend-some t r n [] seg c forward.1 in (k, rw e m)
