-- ===== src/Storage/Filesystem/Leftovers.antt =====
-- `clean_leftover_tmp_files` of storage/filesystem/staged_file.rs.
use btdt.Prelude.{
  ℕ, zero, suc, max, Bool, true, false, ◌&&◌, Option, none, some, List, [], ◌∷◌, Bytes, codes, same,
  length, if◌then◌else◌, ◌==◌,
}
use btdt.Prelude.Utf8.{is_utf8}
use btdt.Io.{Result, ErrorKind, ok, err, IoResult, not_found, not_a_directory}
use btdt.Storage.Filesystem.Paths.{PathBuf}
use btdt.Storage.Filesystem.Staged.{Locking, without}
use btdt.Storage.Filesystem.Disk.{
  DiskState, Node, directory, special, regular, node_at, resolve, error, attempt, unlink,
}
use btdt.Storage.Filesystem.Disk.Names.{Location, remove}
use btdt.Storage.Filesystem.{children}

-- The text before the last dot, and that after it
unfoldable pub rsplit_once : Bytes → Option (Bytes × Bytes)
rsplit_once [] = none
rsplit_once (c ∷ cs) = elim (rsplit_once cs) [
  | some (a, b) ↦ some (c ∷ a, b)
  | none ↦ if c == b'.' then some ([], cs) else none
]

-- `rsplitn(3, '.')` and the tests of its first two parts
unfoldable pub is_tmp_name : Bytes → Bool
unfolding rsplit_once same
is_tmp_name name = elim (rsplit_once name) [
  | none ↦ false
  | some (rest, suffix) ↦
      same (elim (rsplit_once rest) [ none ↦ rest | some (a, ext) ↦ ext ]) (codes "tmp")
      && (length suffix == 7)
]

-- `fs::remove_file` of an entry
abbrev pub unlink_at : Location → DiskState → DiskState × Result (Unit {0}) ErrorKind
unlink_at l d = elim (node_at d l) [ none ↦ (d, err not_found) | some n ↦ unlink l n d ]

unfoldable pub remove_at : Location → DiskState → DiskState × IoResult (Unit {0})
unfolding attempt node_at remove
remove_at l d = attempt d (unlink_at l)

-- A file is removed if it can be locked; the lock is released before that. A file that is not there any
-- more can not be opened.
unfoldable pub clean_file : Locking → Location → ℕ → DiskState → DiskState × IoResult (Unit {0})
unfolding node_at remove_at without
clean_file K l i d = elim (node_at d l) [
  | none ↦ (d, ok tt)
  | some n ↦
      let (js, r) = K.try_lock_exclusive i d.locks in
      elim r [
        | ok u ↦ remove_at l (record d { locks = without i js })
        | err e ↦ (record d { locks = js }, ok tt)
      ]
]

-- The loop over the entries of a directory, with what is done in a subdirectory; `none` is that there
-- was not enough fuel.
abbrev pub Cleaner : Type 0
Cleaner = Location → DiskState → Option (DiskState × IoResult (Unit {0}))

unfoldable pub clean_entries :
    Locking
    → Cleaner
    → Location
    → List (Bytes × Node)
    → DiskState
    → Option (DiskState × IoResult (Unit {0}))
unfolding clean_file is_utf8 is_tmp_name
clean_entries K sub l [] d = some (d, ok tt)
clean_entries K sub l ((name, special) ∷ es) d = clean_entries K sub l es d
clean_entries K sub l ((name, regular i) ∷ es) d = elim (is_utf8 name && is_tmp_name name) [
  | false ↦ clean_entries K sub l es d
  | true ↦
      let (d', r) = clean_file K (name ∷ l) i d in
      elim r [ ok u ↦ clean_entries K sub l es d' | err e ↦ some (d', err e) ]
]
clean_entries K sub l ((name, directory) ∷ es) d = elim (sub (name ∷ l) d) [
  | none ↦ none
  | some (d', ok u) ↦ clean_entries K sub l es d'
  | some (d', err e) ↦ some (d', err e)
]

unfoldable pub clean_dir : Locking → ℕ → Cleaner
unfolding node_at children clean_entries
clean_dir K zero l d = none
clean_dir K (suc fuel) l d = elim (node_at d l) [
  | none ↦ some (d, err (error not_found))
  | some special ↦ some (d, err (error not_a_directory))
  | some (regular i) ↦ some (d, err (error not_a_directory))
  | some directory ↦ clean_entries K (clean_dir K fuel) l (children l d.nodes) d
]

-- Deeper than every location
unfoldable pub depth : List (Location × Node) → ℕ
depth [] = 0
depth ((l, n) ∷ names) = let rest = depth names in max (length l) rest

unfoldable pub clean_leftover_tmp_files :
    Locking → PathBuf → DiskState → Option (DiskState × IoResult (Unit {0}))
unfolding resolve clean_dir depth
clean_leftover_tmp_files K p d = elim (resolve d p) [
  | err e ↦ some (d, err (error e))
  | ok l ↦ clean_dir K (suc (depth d.nodes)) l d
]
