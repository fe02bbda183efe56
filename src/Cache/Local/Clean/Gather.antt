-- ===== src/Cache/Local/Clean/Gather.antt =====
-- cache/local.rs: what the first half of `LocalCache::clean` finds in the storage, with the iterator
-- over the files of the subdirectories. A `HashMap` is an association list.
use btdt.Prelude.{
  ℕ, Option, none, some, List, [], ◌∷◌, ◌++◌, Bytes, codes, length, ◌==◌, if◌then◌else◌, bytes_dec,
  ite,
}
use btdt.Io.{◌>>=◌ as and_then, Result, ok, err, IoPathResult, IoPathError, map_err}
use btdt.Storage.{EntryType, StorageEntry}
use btdt.Storage.Interface.{Storage}
use btdt.Cache.Externals.{Externals}
use btdt.Cache.Meta
use btdt.Cache.Local.{read_meta, bad_meta}

pub record SubdirFile : Type 0 where
  pub path : Bytes
  pub subdir : Bytes
  pub name : Bytes
  pub size : ℕ

-- `clean` ends early with an error, or with a panic of `unwrap`.
pub data Stop : Type 0 where
  failed : IoPathError → Stop
  panicked : Stop

-- `collect::<IoPathResult<Vec<_>>>()`
unfoldable pub collect : {A : Type 0} → List (IoPathResult A) → IoPathResult (List A)
collect [] = ok []
collect (err e ∷ rs) = err e
collect (ok a ∷ rs) = let rest = collect rs in and_then rest λ as_. ok (a ∷ as_)

-- The size under the blob's identifier in `blob_sizes`; a later insertion stands further in front.
unfoldable pub size_of : Bytes → List (Bytes × ℕ) → Option ℕ
size_of id [] = none
size_of id ((i, size) ∷ sizes) = ite (bytes_dec i id) (some size) (size_of id sizes)

module _ (S : Storage) (X : Externals) where
  open S use {State}
  open X use {DateTime}

  pub record Blob : Type 0 where
    pub latest_access : DateTime
    pub size : ℕ
    pub blob_id : Bytes
    pub keys : List Bytes

  -- The entry of a subdirectory as a file of it, if it is a file.
  unfoldable pub file_in : Bytes → Bytes → StorageEntry → EntryType → List (IoPathResult SubdirFile)
  file_in path subdir e EntryType.directory = []
  file_in path subdir e EntryType.file =
      ok (record { path = path ++ (b'/' ∷ e.name); subdir = subdir; name = e.name; size = e.size })
      ∷ []

  unfoldable pub subdir_file :
      Bytes → Bytes → IoPathResult StorageEntry → List (IoPathResult SubdirFile)
  unfolding file_in
  subdir_file path subdir (err e) = err e ∷ []
  subdir_file path subdir (ok e) = file_in path subdir e e.entry_type

  unfoldable pub subdir_files :
      Bytes → Bytes → List (IoPathResult StorageEntry) → List (IoPathResult SubdirFile)
  unfolding subdir_file
  subdir_files path subdir [] = []
  subdir_files path subdir (r ∷ rs) = subdir_file path subdir r ++ subdir_files path subdir rs

  unfoldable pub listed :
      Bytes
      → Bytes
      → IoPathResult (List (IoPathResult StorageEntry))
      → List (IoPathResult SubdirFile)
  unfolding subdir_files
  listed path subdir (ok rs) = subdir_files path subdir rs
  listed path subdir (err e) = err e ∷ []

  -- The closure of the `flat_map` over the entries of the directory.
  unfoldable pub files_of :
      Bytes → State → StorageEntry → EntryType → List (IoPathResult SubdirFile)
  unfolding listed
  files_of path s e EntryType.file = []
  files_of path s e EntryType.directory =
      let subdir_path = path ++ (b'/' ∷ e.name) in listed subdir_path e.name (S.list subdir_path s)

  unfoldable pub all_files : Bytes → State → List StorageEntry → List (IoPathResult SubdirFile)
  unfolding files_of
  all_files path s [] = []
  all_files path s (e ∷ entries) = files_of path s e e.entry_type ++ all_files path s entries

  unfoldable pub iter_subdir_files : Bytes → State → IoPathResult (List (IoPathResult SubdirFile))
  unfolding collect all_files
  iter_subdir_files path s =
      and_then (S.list path s) λ rs. and_then (collect rs) λ entries. ok (all_files path s entries)

  -- The loop over the files of "/blob". A name that decodes to no 16 bytes panics in `unwrap`.
  unfoldable pub enter_size : Option Bytes → ℕ → List (Bytes × ℕ) → Result (List (Bytes × ℕ)) Stop
  enter_size none size sizes = ok sizes
  enter_size (some id) size sizes =
      if length id == 16 then ok ((id, size) ∷ sizes) else err panicked

  unfoldable pub blob_sizes :
      List (IoPathResult SubdirFile) → List (Bytes × ℕ) → Result (List (Bytes × ℕ)) Stop
  unfolding enter_size
  blob_sizes [] sizes = ok sizes
  blob_sizes (err e ∷ files) sizes = err (failed e)
  blob_sizes (ok file ∷ files) sizes =
      and_then (enter_size (X.decode (file.subdir ++ file.name)) file.size sizes) (blob_sizes files)

  -- `std::cmp::max`
  unfoldable pub later : DateTime → DateTime → DateTime
  later a b = if X.at_least b a then b else a

  -- `entry(…).or_insert_with(…)`, and what is done to the entry.
  unfoldable pub enter_key : Bytes → ℕ → DateTime → Bytes → List Blob → List Blob
  unfolding later
  enter_key id size t key [] =
      record { latest_access = later t t; size = size; blob_id = id; keys = key ∷ [] } ∷ []
  enter_key id size t key (b ∷ blobs) =
      ite (bytes_dec b.blob_id id)
        (record b { latest_access = later b.latest_access t; keys = b.keys ++ (key ∷ []) } ∷ blobs)
        (b ∷ enter_key id size t key blobs)

  unfoldable pub enter_meta : Bytes → Bytes → DateTime → Option ℕ → List Blob → List Blob
  unfolding enter_key
  enter_meta key id t none blobs = blobs
  enter_meta key id t (some size) blobs = enter_key id size t key blobs

  -- The loop over the files of "/meta".
  unfoldable pub blobs_of :
      State
      → List (Bytes × ℕ)
      → List (IoPathResult SubdirFile)
      → List Blob
      → IoPathResult (List Blob)
  unfolding size_of enter_meta
  blobs_of s sizes [] blobs = ok blobs
  blobs_of s sizes (err e ∷ files) blobs = err e
  blobs_of s sizes (ok file ∷ files) blobs = and_then (read_meta S X file.path s) λ meta.
      and_then (map_err (bad_meta S X) (Meta.latest_access X meta)) λ t.
        let id = Meta.blob_id X meta in
        blobs_of s sizes files (enter_meta file.name id t (size_of id sizes) blobs)

  -- What the first half of `clean` finds in the storage.
  unfoldable pub gather : State → Result (List Blob) Stop
  unfolding iter_subdir_files blob_sizes blobs_of
  gather s = and_then (map_err failed (iter_subdir_files (codes "/blob") s)) λ blob_files.
      and_then (blob_sizes blob_files []) λ sizes.
        map_err failed (
          and_then (iter_subdir_files (codes "/meta") s) λ key_files. blobs_of s sizes key_files [])
