-- ===== src/Storage/Filesystem/Disk.antt =====
-- `std::fs` as storage/filesystem uses it: a file system with files, directories and other entries,
-- whose files stay while a handle is open. A change may fail for a reason outside of the model, such as
-- a full disk; then it has changed nothing, or written a part.
pub mod Names
pub mod Sound
pub mod Changes
pub mod Adds
use btdt.Prelude.{
  ℕ, suc, ◌+◌, Bool, true, false, Option, none, some, List, [], ◌∷◌, ◌++◌, map, Bytes, length,
  get_or, set, take, if◌then◌else◌, ◌==◌,
}
use btdt.Io.{
  Result, ok, err, ◌>>=◌, map_err, IoError, IoResult, ErrorKind, not_found, already_exists,
  is_a_directory, not_a_directory, directory_not_empty, unsupported,
}
use btdt.Storage.Filesystem.Paths.{
  Component, root_dir, cur_dir, parent_dir, normal, PathBuf, ends_in_dir,
}
use btdt.Storage.Filesystem.Disk.Names.{Location, lookup, assign, remove, has_child}

-- What a name stands for; a file by its number.
pub data Node : Type 0 where
  directory special : Node
  regular : ℕ → Node

-- `locks` are the files that a process has locked. The attempt to change the disk for the `n`th time
-- fails if `faults n` says so; of a write that number of bytes has been written then.
pub record DiskState : Type 0 where
  pub nodes : List (Location × Node)
  pub files : List Bytes
  pub locks : List ℕ
  pub cwd : Location
  pub ticks : ℕ
  pub faults : ℕ → Option (ℕ × IoError)

abbrev pub error : ErrorKind → IoError
error k = record { kind = k; message = "" }

unfoldable pub node_at : DiskState → Location → Option Node
unfolding lookup
node_at d [] = some directory
node_at d (n ∷ l) = lookup (n ∷ l) d.nodes

abbrev pub content : DiskState → ℕ → Bytes
content d i = get_or d.files i []

-- A step of the resolution of a path.
abbrev pub step : Component → Location → Location
step root_dir l = []
step cur_dir l = l
step parent_dir [] = []
step parent_dir (n ∷ l) = l
step (normal n) l = n ∷ l

unfoldable pub walk : DiskState → Location → PathBuf → Result Location ErrorKind
unfolding node_at
walk d l [] = ok l
walk d l (c ∷ p) = elim (node_at d l) [
  | none ↦ err not_found
  | some directory ↦ walk d (step c l) p
  | some special ↦ err not_a_directory
  | some (regular i) ↦ err not_a_directory
]

unfoldable pub resolve : DiskState → PathBuf → Result Location ErrorKind
unfolding walk
resolve d [] = err not_found
resolve d (root_dir ∷ p) = walk d [] p
resolve d p = walk d d.cwd p

-- What stands under a path.
unfoldable pub stat : DiskState → PathBuf → Result Node ErrorKind
unfolding resolve node_at
stat d p = resolve d p >>= λ l. elim (node_at d l) [ none ↦ err not_found | some n ↦ ok n ]

-- `Path::exists`, `is_file` and `is_dir`
unfoldable pub exists : DiskState → PathBuf → Bool
unfolding stat
exists d p = elim (stat d p) [ err e ↦ false | ok n ↦ true ]

unfoldable pub is_file : DiskState → PathBuf → Bool
unfolding stat
is_file d p = elim (stat d p) [
  | err e ↦ false
  | ok directory ↦ false
  | ok special ↦ false
  | ok (regular i) ↦ true
]

unfoldable pub is_dir : DiskState → PathBuf → Bool
unfolding stat
is_dir d p = elim (stat d p) [
  | err e ↦ false
  | ok directory ↦ true
  | ok special ↦ false
  | ok (regular i) ↦ false
]

-- `File::open`, which opens a directory too
unfoldable pub open_file : DiskState → PathBuf → IoResult Node
unfolding stat
open_file d p = map_err error (stat d p)

abbrev pub tick : DiskState → DiskState
tick d = record d { ticks = suc d.ticks }

-- A change of the disk that is tried.
unfoldable pub attempt :
    {A : Type 0} → DiskState → (DiskState → DiskState × Result A ErrorKind) → DiskState × IoResult A
attempt d f = elim (d.faults d.ticks) [
  | some (n, e) ↦ (tick d, err e)
  | none ↦ let (d', r) = f (tick d) in (d', map_err error r)
]

abbrev pub assigned : Location → Node → DiskState → DiskState
assigned l n d = record d { nodes = assign l n d.nodes }

-- A new entry, where there is none.
abbrev pub enter : {A : Type 0} → Location → Node → A → DiskState → DiskState × Result A ErrorKind
enter l n a d = elim (node_at d l) [
  | none ↦ (assigned l n d, ok a)
  | some x ↦ (d, err already_exists)
]

-- `fs::create_dir`
abbrev pub make_dir : PathBuf → DiskState → DiskState × Result (Unit {0}) ErrorKind
make_dir p d = elim (resolve d p) [ err e ↦ (d, err e) | ok l ↦ enter l directory tt d ]

unfoldable pub create_dir : PathBuf → DiskState → DiskState × IoResult (Unit {0})
unfolding attempt resolve node_at assign
create_dir p d = attempt d (make_dir p)

-- `OpenOptions` with `create_new` and `write`
abbrev pub create_at : Location → DiskState → DiskState × Result ℕ ErrorKind
create_at l d = elim (node_at d l) [
  | none ↦ (
    record d { nodes = assign l (regular (length d.files)) d.nodes; files = d.files ++ ([] ∷ []) },
    ok (length d.files),
  )
  | some x ↦ (d, err already_exists)
]

abbrev pub make_file : PathBuf → DiskState → DiskState × Result ℕ ErrorKind
make_file p d = elim (resolve d p) [ err e ↦ (d, err e) | ok l ↦ create_at l d ]

unfoldable pub create_new : PathBuf → DiskState → DiskState × IoResult ℕ
unfolding attempt resolve node_at assign
create_new p d = attempt d (make_file p)

-- `write_all` through `File::write`
unfoldable pub write_file : ℕ → Bytes → DiskState → DiskState × IoResult (Unit {0})
write_file i buf d = elim (d.faults d.ticks) [
  | none ↦ (record (tick d) { files = set d.files i (content d i ++ buf) }, ok tt)
  | some (n, e) ↦ (record (tick d) { files = set d.files i (content d i ++ take n buf) }, err e)
]

-- `fs::rename` of a file. The program renames no directory, which is left out.
abbrev pub rename_at :
    Location → Location → Node → DiskState → DiskState × Result (Unit {0}) ErrorKind
rename_at a b directory d = (d, err unsupported)
rename_at a b n d = elim (node_at d b) [
  | some directory ↦ (d, err is_a_directory)
  | rest ↦ (record d { nodes = assign b n (remove a d.nodes) }, ok tt)
]

abbrev pub move : PathBuf → PathBuf → DiskState → DiskState × Result (Unit {0}) ErrorKind
move p q d = elim (resolve d p) [
  | err e ↦ (d, err e)
  | ok a ↦ elim (node_at d a) [
    | none ↦ (d, err not_found)
    | some n ↦ elim (ends_in_dir q) [
      | true ↦ (d, err not_a_directory)
      | false ↦ elim (resolve d q) [ err e ↦ (d, err e) | ok b ↦ rename_at a b n d ]
    ]
  ]
]

unfoldable pub rename : PathBuf → PathBuf → DiskState → DiskState × IoResult (Unit {0})
unfolding attempt resolve node_at assign remove ends_in_dir
rename p q d = attempt d (move p q)

-- `fs::remove_file` and `fs::remove_dir`
abbrev pub unlink : Location → Node → DiskState → DiskState × Result (Unit {0}) ErrorKind
unlink l directory d = (d, err is_a_directory)
unlink l n d = (record d { nodes = remove l d.nodes }, ok tt)

unfoldable pub remove_file : PathBuf → DiskState → DiskState × IoResult (Unit {0})
unfolding attempt resolve node_at remove
remove_file p d = attempt d λ d'. elim (resolve d' p) [
  | err e ↦ (d', err e)
  | ok l ↦ elim (node_at d' l) [ none ↦ (d', err not_found) | some n ↦ unlink l n d' ]
]

abbrev pub rmdir : Location → Node → DiskState → DiskState × Result (Unit {0}) ErrorKind
rmdir l directory d =
    if has_child l d.nodes
    then (d, err directory_not_empty)
    else (record d { nodes = remove l d.nodes }, ok tt)
rmdir l n d = (d, err not_a_directory)

unfoldable pub remove_dir : PathBuf → DiskState → DiskState × IoResult (Unit {0})
unfolding attempt resolve node_at remove has_child
remove_dir p d = attempt d λ d'. elim (resolve d' p) [
  | err e ↦ (d', err e)
  | ok l ↦ elim (node_at d' l) [ none ↦ (d', err not_found) | some n ↦ rmdir l n d' ]
]
