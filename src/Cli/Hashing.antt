-- ===== src/Cli/Hashing.antt =====
-- btdt-cli/src/hashing.rs: the hash of files and directories.
pub mod Sorting
pub mod Listing
pub mod Tests
use btdt.Prelude.{ℕ, Bool, true, false, List, [], ◌∷◌, Bytes, ltb, ◌==◌, if◌then◌else◌}
use btdt.Io.{Result, ok, err, ◌>>=◌}

-- `blake3::Hasher`, of which `update_reader` is an `update` with what is read
pub record Hashing : Type 1 where
  pub Hasher : Type 0
  pub new : Hasher
  pub update : Bytes → Hasher → Hasher
  pub finalize : Hasher → Bytes

-- What there is under a path: a file with its content, a directory with its entries in the order of
-- their listing, or something that cannot be opened, read or listed, with the text of the error.
mutual
  pub data Node : Type 0 where
    file : Bytes → Node
    dir : Entries → Node
    unreadable : Bytes → Node

  pub data Entries : Type 0 where
    end : Entries
    entry : Bytes → Node → Entries → Entries

abbrev pub HashResult : Type 0
HashResult = Result Bytes Bytes

-- `Ord` of file names: byte by byte
unfoldable pub name_lt : Bytes → Bytes → Bool
name_lt [] [] = false
name_lt [] (d ∷ t) = true
name_lt (c ∷ s) [] = false
name_lt (c ∷ s) (d ∷ t) = let rest = name_lt s t in if c == d then rest else ltb c d

-- `sort_by_key` with the file name, which keeps the order of equal names
unfoldable pub insert : Bytes × HashResult → List (Bytes × HashResult) → List (Bytes × HashResult)
unfolding name_lt
insert x [] = x ∷ []
insert x (y ∷ ys) = let rest = insert x ys in if name_lt y.0 x.0 then y ∷ rest else x ∷ y ∷ ys

unfoldable pub sort_by_name : List (Bytes × HashResult) → List (Bytes × HashResult)
unfolding insert
sort_by_name [] = []
sort_by_name (x ∷ xs) = insert x (sort_by_name xs)

module _ (H : Hashing) where
  open H use {Hasher}

  unfoldable pub hash_bytes : Bytes → Bytes
  hash_bytes bytes = H.finalize (H.update bytes H.new)

  -- The loop of `hash_dir` over the sorted entries, up to the first that fails.
  unfoldable pub update_all : List (Bytes × HashResult) → Hasher → HashResult
  unfolding hash_bytes
  update_all [] hasher = ok (H.finalize hasher)
  update_all ((name, r) ∷ entries) hasher = elim r [
    | err e ↦ err e
    | ok hash ↦ update_all entries (H.update hash (H.update (hash_bytes name) hasher))
  ]

  unfoldable mutual
    unfolding sort_by_name update_all

    pub hash_path : Node → HashResult
    hash_path (file content) = ok (H.finalize (H.update content H.new))
    hash_path (unreadable e) = err e
    hash_path (dir entries) = update_all (sort_by_name (hash_entries entries)) H.new

    pub hash_entries : Entries → List (Bytes × HashResult)
    hash_entries end = []
    hash_entries (entry name node entries) = (name, hash_path node) ∷ hash_entries entries

  -- The loop of `hash_paths` over several paths
  unfoldable pub update_paths : List Node → Hasher → HashResult
  unfolding hash_path
  update_paths [] hasher = ok (H.finalize hasher)
  update_paths (path ∷ paths) hasher = elim (hash_path path) [
    | err e ↦ err e
    | ok hash ↦ update_paths paths (H.update hash hasher)
  ]

  unfoldable pub hash_paths : List Node → HashResult
  unfolding hash_path update_paths
  hash_paths [] = update_paths [] H.new
  hash_paths (path ∷ []) = hash_path path
  hash_paths (path ∷ next ∷ paths) = update_paths (path ∷ next ∷ paths) H.new
