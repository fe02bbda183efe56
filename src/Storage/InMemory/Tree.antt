-- ===== src/Storage/InMemory/Tree.antt =====
-- storage/in_memory/dir_node.rs: a directory of the tree. `HashMap<String, Node>` is the list of its
-- entries; `Arc<FileNode>` is the place of the file's content in the storage's list of contents.
pub mod Entries
use btdt.Prelude.{
  ℕ, zero, suc, ◌≡◌, refl, Bool, true, false, Option, none, some, List, [], ◌∷◌, Bytes, bytes_dec,
  ite,
}
use btdt.Io.{
  IoPathResult, ok, err, error_at, not_found, is_a_directory, not_a_directory, directory_not_empty,
}

mutual
  pub data Node : Type 0 where
    dir : DirNode → Node
    file : ℕ → Node

  pub data DirNode : Type 0 where
    end : DirNode
    entry : Bytes → Node → DirNode → DirNode

-- `HashMap::get`
unfoldable pub get : Bytes → DirNode → Option Node
get name end = none
get name (entry n node d) = ite (bytes_dec n name) (some node) (get name d)

-- `HashMap::insert`; with it the value behind a `&mut` is written back.
unfoldable pub insert : Bytes → Node → DirNode → DirNode
insert name node end = entry name node end
insert name node (entry n old d) =
    ite (bytes_dec n name) (entry n node d) (entry n old (insert name node d))

-- `HashMap::remove`
unfoldable pub remove : Bytes → DirNode → DirNode
remove name end = end
remove name (entry n node d) =
    let rest = remove name d in ite (bytes_dec n name) rest (entry n node rest)

abbrev pub is_empty : DirNode → Bool
is_empty end = true
is_empty (entry n node d) = false

-- The directory that is there, or the new one that `or_insert` puts there. What the caller does to
-- it is written back by `insert`.
dir_of : Bytes → Option Node → IoPathResult DirNode
dir_of name none = ok end
dir_of name (some (dir d)) = ok d
dir_of name (some (file r)) =
    err (error_at (record { kind = not_a_directory; message = "Not a directory" }) name)

unfoldable pub get_or_insert_dir : Bytes → DirNode → IoPathResult DirNode
unfolding get dir_of
get_or_insert_dir name d = dir_of name (get name d)

unfoldable pub delete_node : Bytes → Option Node → DirNode → IoPathResult DirNode
delete_node name none d =
    err (error_at (record { kind = not_found; message = "No such file or directory" }) name)
delete_node name (some (dir (entry n node rest))) d = err (
    error_at
      (record { kind = directory_not_empty; message = "Directory must be empty to be deleted" })
      name)
delete_node name (some (dir end)) d = ok (remove name d)
delete_node name (some (file r)) d = ok (remove name d)

unfoldable pub delete : Bytes → DirNode → IoPathResult DirNode
unfolding get remove delete_node
delete name d = delete_node name (get name d) d

-- `fresh` is the place of the new `FileNode`; the writer of the result writes there. An old file
-- node is replaced, not emptied: its readers keep it.
create_node : Bytes → ℕ → Option Node → DirNode → IoPathResult (DirNode × ℕ)
create_node name fresh none d = ok (insert name (file fresh) d, fresh)
create_node name fresh (some (file r)) d = ok (insert name (file fresh) d, fresh)
create_node name fresh (some (dir sub)) d = err (
    error_at
      (record { kind = is_a_directory; message = "A directory with the same name already exists" })
      name)

unfoldable pub create_file : Bytes → ℕ → DirNode → IoPathResult (DirNode × ℕ)
unfolding get insert create_node
create_file name fresh d = create_node name fresh (get name d) d

-- `DirNode::size`
unfoldable pub size : DirNode → ℕ
size d = 0
