-- ===== src/Storage/InMemory.antt =====
-- storage/in_memory/mod.rs: the storage. Its methods take the state behind the `RwLock` and return
-- the new one; each method holds the lock throughout. The proofs are in the modules below.
pub mod PathIter
pub mod FileNode
pub mod Tree
pub mod Nodes
pub mod Lookup
pub mod Put
pub mod Delete
pub mod View
pub mod RoundTrip
pub mod Implements
pub mod Reliable
mod Tests
use btdt.Prelude.{
  ℕ, ◌+◌, Bool, true, false, Option, none, some, List, [], ◌∷◌, ◌++◌, map, take, Bytes, codes,
}
use btdt.Io.{
  IoError, IoPathError, IoPathResult, ok, err, ◌>>=◌, map_err, with_path, error_at, ErrorKind,
  not_found, is_a_directory, not_a_directory, invalid_input,
}
use btdt.Util.Close.{SelfClosing}
use btdt.Storage.{EntryType, StorageEntry, FileHandle}
use PathIter.{PathComponent, components}
use FileNode.{Contents, FileReader, FileWriter, new_file, reader, writer}
use Tree.{Node, DirNode, dir, file, end, entry, get_or_insert_dir, create_file}

pub record InMemoryStorage : Type 0 where
  pub root : DirNode
  pub files : Contents

unfoldable pub new : InMemoryStorage
new = record { root = end; files = [] }

abbrev pub no_such : IoError
no_such = record { kind = not_found; message = "No such file or directory" }

abbrev no_component : IoError
no_component = record { kind = invalid_input; message = "Path must contain at least one component" }

-- `components.join("/")`
join : List Bytes → Bytes
join [] = []
join (w ∷ []) = w
join (w ∷ ws) = w ++ (b'/' ∷ join ws)

first_n_path_components : Bytes → ℕ → IoPathResult Bytes
unfolding join
first_n_path_components path n = do
  cs ← with_path (components path) path
  ok (join (take n (map (λ c. c.name) cs)))

-- `Err(error).with_path(first_n_path_components(path, n)?)`
pub fail_at : {A : Type 0} → Bytes → ℕ → IoError → IoPathResult A
unfolding first_n_path_components
fail_at path n error = do p ← first_n_path_components path n; err (error_at error p)

-- The loop of `delete`, over the components that are left. The directory behind the `&mut` comes
-- back changed.
delete_loop : Bytes → List PathComponent → ℕ → DirNode → IoPathResult DirNode
delete_loop path [] i d =
    err
      (error_at (record { kind = invalid_input; message = "Must not delete root directory" }) path)
delete_loop path (c ∷ cs) i d = elim c.is_last [
  | true ↦ Tree.delete c.name d
  | false ↦ elim (Tree.get c.name d) [
    | some (dir sub) ↦ do
      sub' ← delete_loop path cs (i + 1) sub
      ok (Tree.insert c.name (dir sub') d)
    | _ ↦ fail_at path (i + 1) no_such
  ]
]

unfoldable pub delete : Bytes → InMemoryStorage → IoPathResult InMemoryStorage
unfolding delete_loop fail_at
delete path s = do
  cs ← with_path (components path) path
  root ← delete_loop path cs 0 s.root
  ok (record s { root = root })

-- What `get` makes of the node of the last component.
get_last : Bytes → ℕ → Option Node → Contents → IoPathResult (FileHandle FileReader)
get_last path i (some (file r)) fs =
    ok (record { size_hint = FileNode.size fs r; reader = reader r })
get_last path i (some (dir d)) fs =
    fail_at path (i + 1) (record { kind = is_a_directory; message = "Is a directory" })
get_last path i none fs =
    fail_at path (i + 1) (record { kind = not_found; message = "File not found" })

get_loop :
    Bytes → List PathComponent → ℕ → DirNode → Contents → IoPathResult (FileHandle FileReader)
get_loop path [] i d fs = err (error_at no_component path)
get_loop path (c ∷ cs) i d fs = elim c.is_last [
  | true ↦ get_last path i (Tree.get c.name d) fs
  | false ↦ elim (Tree.get c.name d) [
    | some (dir sub) ↦ get_loop path cs (i + 1) sub fs
    | _ ↦ fail_at path (i + 1) no_such
  ]
]

unfoldable pub get : Bytes → InMemoryStorage → IoPathResult (FileHandle FileReader)
unfolding get_loop get_last fail_at FileNode.size reader
get path s = do cs ← with_path (components path) path; get_loop path cs 0 s.root s.files

-- The errors that mean that there is no file.
exists_by_kind : IoPathError → ErrorKind → IoPathResult Bool
exists_by_kind e is_a_directory = ok false
exists_by_kind e not_found = ok false
exists_by_kind e _ = err e

unfoldable pub exists_file : Bytes → InMemoryStorage → IoPathResult Bool
unfolding exists_by_kind
exists_file path s = elim (get path s) [ ok h ↦ ok true | err e ↦ exists_by_kind e e.error.kind ]

list_entry : Contents → Bytes → Node → StorageEntry
list_entry fs name (dir d) = record {
  entry_type = EntryType.directory;
  name = name;
  size = Tree.size d;
}
list_entry fs name (file r) = record {
  entry_type = EntryType.file;
  name = name;
  size = FileNode.size fs r;
}

-- `dir.list().map(…)`
list_entries : Contents → DirNode → List StorageEntry
list_entries fs end = []
list_entries fs (entry name node d) = list_entry fs name node ∷ list_entries fs d

-- A component that is no directory: for a file at the end of the path the error is another.
list_failure : Bytes → ℕ → Bool → Option Node → IoPathResult (List StorageEntry)
list_failure path i true (some (file r)) =
    fail_at path (i + 1) (record { kind = not_a_directory; message = "Not a directory" })
list_failure path i _ child = fail_at path (i + 1) no_such

list_loop : Bytes → List PathComponent → ℕ → DirNode → Contents → IoPathResult (List StorageEntry)
list_loop path [] i d fs = ok (list_entries fs d)
list_loop path (c ∷ cs) i d fs = elim (Tree.get c.name d) [
  | some (dir sub) ↦ list_loop path cs (i + 1) sub fs
  | child ↦ list_failure path i c.is_last child
]

unfoldable pub list : Bytes → InMemoryStorage → IoPathResult (List StorageEntry)
unfolding list_loop list_failure list_entries list_entry fail_at FileNode.size Tree.size
list path s = do cs ← with_path (components path) path; list_loop path cs 0 s.root s.files

-- The loop of `put`. Directories that it makes stay, also where it fails further down.
put_last : DirNode → IoPathResult (DirNode × ℕ) → DirNode × IoPathResult ℕ
put_last d (ok (d', r)) = (d', ok r)
put_last d (err e) = (d, err e)

put_loop : Bytes → List PathComponent → ℕ → DirNode → DirNode × IoPathResult ℕ
put_loop path [] fresh d = (d, err (error_at no_component path))
put_loop path (c ∷ cs) fresh d = elim c.is_last [
  | true ↦ put_last d (create_file c.name fresh d)
  | false ↦ elim (get_or_insert_dir c.name d) [
    | ok sub ↦
        let (sub', result) = put_loop path cs fresh sub in (Tree.insert c.name (dir sub') d, result)
    | err e ↦ (d, err e)
  ]
]

-- The new content is dropped where no node came to hold it.
put_result :
    InMemoryStorage
    → DirNode × IoPathResult ℕ
    → InMemoryStorage × IoPathResult (SelfClosing FileWriter)
put_result s (root, ok r) =
    (record { root = root; files = (new_file s.files).0 }, ok (record { inner = writer r }))
put_result s (root, err e) = (record s { root = root }, err e)

put_in :
    Bytes
    → InMemoryStorage
    → IoPathResult (List PathComponent)
    → InMemoryStorage × IoPathResult (SelfClosing FileWriter)
put_in path s (ok cs) = put_result s (put_loop path cs (new_file s.files).1 s.root)
put_in path s (err e) = (s, err e)

unfoldable pub put :
    Bytes → InMemoryStorage → InMemoryStorage × IoPathResult (SelfClosing FileWriter)
unfolding put_in put_loop put_last put_result new_file writer
put path s = put_in path s (with_path (components path) path)
