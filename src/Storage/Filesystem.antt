-- ===== src/Storage/Filesystem.antt =====
-- storage/filesystem/mod.rs: the storage in a directory of the file system.
pub mod Paths
pub mod Disk
pub mod Staged
pub mod Places
pub mod Canonical
pub mod Put
pub mod Opened
pub mod View
pub mod Writing
pub mod Appending
pub mod Closing
pub mod Closed
pub mod Reading
pub mod Implements
pub mod Staging
pub mod Atomic
pub mod Leftovers
pub mod Cleaning
pub mod Cleaned
pub mod Tests
use btdt.Prelude.{
  ℕ, suc, ◌+◌, Bool, true, false, Option, none, some, List, [], ◌∷◌, ◌++◌, Bytes, length, take,
  drop, leb, ite, if◌then◌else◌, ◌==◌,
}
use btdt.Prelude.Utf8.{is_utf8}
use btdt.Io.{
  ok, err, ◌>>=◌, map_err, IoResult, IoPathResult, error_at, IoError, with_path, invalid_input,
  invalid_data, not_found, unexpected_eof, is_a_directory, unsupported, not_a_directory,
}
use btdt.Storage.{FileHandle, StorageEntry, file, EntryType}
use btdt.Storage.InMemory.PathIter.{starts_with_slash}
use btdt.Storage.Filesystem.Paths.{
  PathBuf, Component, parent_dir, normal, components, join, join_text, parent, render,
}
use btdt.Storage.Filesystem.Disk.{
  DiskState, Node, directory, special, regular, content, error, node_at, resolve, exists, is_file,
  is_dir, open_file, create_dir, write_file, remove_file, remove_dir,
}
use btdt.Storage.Filesystem.Disk.Names.{Location, location_dec}
use btdt.Storage.Filesystem.Staged
use btdt.Storage.Filesystem.Staged.{StagedFile, Locking, new_with_suffix}

-- The crates that the storage calls: why an open of what is there is refused; fs2's `allocated_size`, of
-- a file by its content and of anything else, its locks, and the encoded random bytes of the temporary names.
pub record Host : Type 0 where
  pub open_error : Node → Option IoError
  pub allocated_size : Option Bytes → IoResult ℕ
  pub locking : Locking
  pub suffix_at : ℕ → Bytes

pub record State : Type 0 where
  pub disk : DiskState
  pub rng : ℕ

abbrev pub is_parent_dir : Component → Bool
is_parent_dir parent_dir = true
is_parent_dir c = false

-- The loop of `put` over the components of the parent directory
unfoldable pub create_dirs : PathBuf → PathBuf → DiskState → DiskState × IoPathResult (Unit {0})
unfolding join exists create_dir render
create_dirs path [] d = (d, ok tt)
create_dirs path (c ∷ cs) d = elim (is_parent_dir c) [
  | true ↦ (
    d,
    err (
        error_at
          (record {
            kind = invalid_input;
            message = "Path must not contain parent directory components";
          })
          (render path)),
  )
  | false ↦
      let next = join path (c ∷ []) in
      elim (exists d next) [
        | true ↦ create_dirs next cs d
        | false ↦
            let (d', r) = create_dir next d in
            elim r [ err e ↦ (d', err (error_at e (render next))) | ok u ↦ create_dirs next cs d' ]
      ]
]

-- `read_dir`
abbrev pub child_of : Location → Location × Node → List (Bytes × Node) → List (Bytes × Node)
child_of l ([], n) rest = rest
child_of l ((name ∷ m), n) rest = ite (location_dec m l) ((name, n) ∷ rest) rest

unfoldable pub children : Location → List (Location × Node) → List (Bytes × Node)
unfolding location_dec
children l [] = []
children l (e ∷ entries) = let rest = children l entries in child_of l e rest

unfoldable pub read_dir : DiskState → PathBuf → IoResult (List (Bytes × Node))
unfolding resolve node_at children
read_dir d p = map_err error (resolve d p) >>= λ l. elim (node_at d l) [
  | some directory ↦ ok (children l d.nodes)
  | none ↦ err (error not_found)
  | some special ↦ err (error not_a_directory)
  | some (regular i) ↦ err (error not_a_directory)
]

module _ (H : Host) (root : PathBuf) where
  -- `FilesystemStorage::canonical_path`
  unfoldable pub canonical_path : Bytes → IoPathResult PathBuf
  unfolding join_text
  canonical_path path =
      if starts_with_slash path
      then ok (join_text root (drop 1 path))
      else err (
          error_at
            (record {
              kind = invalid_input;
              message = "Path must be absolute, i.e. start with a slash '/'";
            })
            path)

  -- A change of the disk at a canonical path.
  abbrev pub at_path :
      {A : Type 0} → Bytes → State → (PathBuf → State × IoPathResult A) → State × IoPathResult A
  at_path path s f = elim (canonical_path path) [ err e ↦ (s, err e) | ok p ↦ f p ]

  abbrev pub on_disk :
      {A : Type 0} → PathBuf → State → DiskState × IoResult A → State × IoPathResult A
  on_disk p s (d, r) = (record s { disk = d }, with_path r (render p))

  unfoldable pub delete : Bytes → State → State × IoPathResult (Unit {0})
  unfolding canonical_path is_dir remove_dir remove_file render
  delete path s = at_path path s λ p.
      if is_dir s.disk p
      then on_disk p s (remove_dir p s.disk)
      else on_disk p s (remove_file p s.disk)

  abbrev pub allocated : DiskState → Node → IoResult ℕ
  allocated d (regular i) = H.allocated_size (some (content d i))
  allocated d directory = H.allocated_size none
  allocated d special = H.allocated_size none

  -- `File::open`, which can be refused, as by the permissions of a file
  abbrev pub opened : DiskState → PathBuf → IoResult Node
  opened d p = open_file d p >>= λ n. elim (H.open_error n) [ some e ↦ err e | none ↦ ok n ]

  -- A reader is what was opened.
  unfoldable pub get : Bytes → State → IoPathResult (FileHandle Node)
  unfolding canonical_path open_file render
  get path s = canonical_path path >>= λ p. with_path (opened s.disk p) (render p) >>= λ n.
      with_path (allocated s.disk n) (render p) >>= λ size.
      ok (record { size_hint = size; reader = n })

  unfoldable pub exists_file : Bytes → State → IoPathResult Bool
  unfolding canonical_path is_file
  exists_file path s = canonical_path path >>= λ p. ok (is_file s.disk p)

  abbrev pub entry_name : PathBuf → Bytes → EntryType → ℕ → IoPathResult StorageEntry
  entry_name p name t size =
      if is_utf8 name
      then ok (record { entry_type = t; name = name; size = size })
      else err (
          error_at (record { kind = invalid_data; message = "File name is not valid Unicode" })
            (render (p ++ (normal name ∷ []))))

  -- The entries of a listing, without those that are neither files nor directories.
  unfoldable pub list_entries :
      DiskState → PathBuf → List (Bytes × Node) → List (IoPathResult StorageEntry)
  unfolding is_utf8 render
  list_entries d p [] = []
  list_entries d p ((name, special) ∷ es) = list_entries d p es
  list_entries d p ((name, directory) ∷ es) =
      entry_name p name EntryType.directory 0 ∷ list_entries d p es
  list_entries d p ((name, regular i) ∷ es) =
      entry_name p name EntryType.file (length (content d i)) ∷ list_entries d p es

  unfoldable pub list : Bytes → State → IoPathResult (List (IoPathResult StorageEntry))
  unfolding canonical_path read_dir list_entries render
  list path s = canonical_path path >>= λ p.
      with_path (read_dir s.disk p) (render p) >>= λ es. ok (list_entries s.disk p es)

  unfoldable pub make_parents : PathBuf → DiskState → DiskState × IoPathResult (Unit {0})
  unfolding exists parent create_dirs
  make_parents p d = elim (exists d root) [
    | false ↦ (d, ok tt)
    | true ↦ elim (parent p) [ none ↦ (d, ok tt) | some dir ↦ create_dirs [] dir d ]
  ]

  unfoldable pub put : Bytes → State → State × IoPathResult StagedFile
  unfolding canonical_path make_parents new_with_suffix
  put path s = at_path path s λ p.
      let (d, r) = make_parents p s.disk in
      elim r [
        | err e ↦ (record s { disk = d }, err e)
        | ok u ↦
            let (d', w) = new_with_suffix H.locking p (H.suffix_at s.rng) d in
            (record { disk = d'; rng = s.rng + 1 }, w)
      ]

  -- The provided methods of `std::io` over the writer and the reader, and the writer's `close`.
  unfoldable pub write_all : StagedFile → Bytes → State → State × IoResult (Unit {0})
  unfolding write_file
  write_all w buf s = let (d, r) = write_file w.file buf s.disk in (record s { disk = d }, r)

  unfoldable pub close : StagedFile → State → State × IoResult (Unit {0})
  unfolding Staged.close
  close w s = let (d, r) = Staged.close w s.disk in (record s { disk = d }, r)

  -- A writer that goes out of scope, with whether that panics
  unfoldable pub drop_writer : StagedFile → State → State × Bool
  unfolding Staged.drop
  drop_writer w s = let (d, p) = Staged.drop w s.disk in (record s { disk = d }, p)

  unfoldable pub read_exact : Node → ℕ → State → IoResult Bytes
  read_exact (regular i) n s =
      if leb n (length (content s.disk i))
      then ok (take n (content s.disk i))
      else err (record { kind = unexpected_eof; message = "failed to fill whole buffer" })
  read_exact directory n s = if n == 0 then ok [] else err (error is_a_directory)
  read_exact special n s = if n == 0 then ok [] else err (error unsupported)
