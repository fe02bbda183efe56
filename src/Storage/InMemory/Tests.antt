-- ===== src/Storage/InMemory/Tests.antt =====
-- The theorems about in_memory at concrete storages.
use btdt.Prelude.{◌≡◌, refl, none, some, [], ◌∷◌, ◌++◌, arith, Bytes, codes, ite, bytes_dec}
use btdt.Io.{ok, err, not_a_directory, error_at}
use mathlib.Core.Option
use btdt.Storage.{FileHandle, EntryType}
use btdt.Util.Close.{SelfClosing}
use btdt.Storage.InMemory.PathIter.{components}
use btdt.Storage.InMemory.PathIter.Components.{names, mark, components-eq}
use btdt.Storage.InMemory.FileNode.{FileReader, FileWriter, read, read_all, write, reader}
use btdt.Storage.InMemory.FileNode.Reading.{read_all-eq-drop, read_all-after_eof}
use btdt.Storage.InMemory.Tree
use btdt.Storage.InMemory.Tree.{
  get_or_insert_dir, create_file, insert, Node, DirNode, dir, file, end, entry,
}
use btdt.Storage.InMemory.{InMemoryStorage, new, put, get, delete, list}
use btdt.Storage.InMemory.Nodes.{file_at, names_dec, node_at, file_at-end}
use btdt.Storage.InMemory.Lookup.{kind_of, status, lookup, get-eq}
use btdt.Storage.InMemory.Put.{placement_at, put-status}
use btdt.Storage.InMemory.View.{
  contents_at, IsWellFormed, put-IsWellFormed, contents_at-put, write_file, contents_at-write_file,
  contents_at-delete,
}
use btdt.Storage.InMemory.RoundTrip.{write_bufs, get-put}

abbrev foo : Bytes
foo = codes "/dir/foo"

abbrev bar : Bytes
bar = codes "//bar/"

abbrev w0 : SelfClosing FileWriter
w0 = record { inner = record { file_node = 0 } }

abbrev w1 : SelfClosing FileWriter
w1 = record { inner = record { file_node = 1 } }

abbrev one : InMemoryStorage
one = record {
  root = entry (codes "dir") (dir (entry (codes "foo") (file 0) end)) end;
  files = [] ∷ [];
}

abbrev two : InMemoryStorage
two = record {
  root =
      entry (codes "dir") (dir (entry (codes "foo") (file 0) end))
        (entry (codes "bar") (file 1) end);
  files = [] ∷ [] ∷ [];
}

put_one : put foo new ≡ (one, ok w0)
unfolding put new components bytes_dec get_or_insert_dir create_file insert
put_one = refl

put_two : put bar one ≡ (two, ok w1)
unfolding put components bytes_dec get_or_insert_dir create_file insert
put_two = refl

IsWellFormed-new : IsWellFormed new
unfolding new
IsWellFormed-new = record {
  in_range = λ q r h. ground (arith, file_at-end q);
  distinct = λ p q r h g. ground (arith, file_at-end p);
}

IsWellFormed-one : IsWellFormed one
IsWellFormed-one = put-IsWellFormed foo new one w0 IsWellFormed-new put_one

IsWellFormed-two : IsWellFormed two
IsWellFormed-two = put-IsWellFormed bar one two w1 IsWellFormed-one put_two

put-IsWellFormed_example : IsWellFormed two
put-IsWellFormed_example = put-IsWellFormed bar one two w1 IsWellFormed-one put_two

contents_at-put_example :
    contents_at (codes "bar" ∷ []) two
    ≡ ite (names_dec (names bar) (codes "bar" ∷ [])) (some []) (contents_at (codes "bar" ∷ []) one)
contents_at-put_example = contents_at-put bar one two w1 (codes "bar" ∷ []) IsWellFormed-one put_two

components-eq_example : components foo ≡ ok (mark (names foo))
components-eq_example = components-eq foo

read_all-eq-drop_example : read_all (reader 0) (2 ∷ 5 ∷ []) (codes "abc" ∷ []) ≡ codes "abc"
unfolding reader
read_all-eq-drop_example =
    read_all-eq-drop (2 ∷ 5 ∷ []) (reader 0) (codes "abc" ∷ []) (omega arith) (omega arith)

abbrev at_end : FileReader
at_end = record { file_node = 0; offset = 3 }

read_all-after_eof_example :
    read_all
      (read at_end 4 (codes "abc" ∷ [])).reader
      (9 ∷ [])
      (write (record { file_node = 0 }) (codes "def") (codes "abc" ∷ [])).0
    ≡ codes "ef"
read_all-after_eof_example =
    read_all-after_eof at_end 4 (codes "def") (9 ∷ []) (codes "abc" ∷ []) (omega arith) refl
      (omega arith) (omega arith) (omega arith)

get-eq_example : kind_of (get (codes "/dir") two) ≡ lookup two (names (codes "/dir"))
get-eq_example = get-eq (codes "/dir") two

put-status_example :
    status (put (codes "/dir/foo/x") two).1 ≡ placement_at two (names (codes "/dir/foo/x"))
put-status_example = put-status (codes "/dir/foo/x") two

put_fails : put (codes "/dir/foo/x") two ≡ (
  two,
  err (error_at (record { kind = not_a_directory; message = "Not a directory" }) (codes "foo")),
)
unfolding put components bytes_dec get_or_insert_dir create_file insert
put_fails = refl

abbrev deleted : InMemoryStorage
deleted = record {
  root = entry (codes "dir") (dir (entry (codes "foo") (file 0) end)) end;
  files = [] ∷ [] ∷ [];
}

delete_bar : delete bar two ≡ ok deleted
unfolding delete components bytes_dec Tree.delete
delete_bar = refl

contents_at-delete_example :
    contents_at (codes "bar" ∷ []) deleted
    ≡ ite (names_dec (names bar) (codes "bar" ∷ [])) none (contents_at (codes "bar" ∷ []) two)
contents_at-delete_example = contents_at-delete bar two deleted (codes "bar" ∷ []) delete_bar

file_at_bar : file_at (codes "bar" ∷ []) two.root ≡ some 1
unfolding node_at bytes_dec Tree.get
file_at_bar = refl

contents_at-write_file_example :
    contents_at (codes "bar" ∷ []) (write_file w1.inner (codes "hi") two)
    ≡ ite
        (names_dec (codes "bar" ∷ []) (codes "bar" ∷ []))
        (Option.map (λ c. c ++ codes "hi") (contents_at (codes "bar" ∷ []) two))
        (contents_at (codes "bar" ∷ []) two)
contents_at-write_file_example =
    contents_at-write_file (codes "bar" ∷ []) (codes "bar" ∷ []) w1.inner (codes "hi") two
      IsWellFormed-two file_at_bar

get-put_example :
    (handle : FileHandle FileReader) × (kind_of
        (get bar (write_bufs w1.inner (codes "he" ∷ codes "llo" ∷ []) two))
      ≡ ok handle)
    × (handle.size_hint ≡ 5)
    × (read_all handle.reader
          (3 ∷ 3 ∷ [])
          (write_bufs w1.inner (codes "he" ∷ codes "llo" ∷ []) two).files
        ≡ codes "hello")
get-put_example =
    get-put bar one two w1 (codes "he" ∷ codes "llo" ∷ []) (3 ∷ 3 ∷ []) put_two (omega arith)
      (omega arith)

list_root :
    list (codes "/") two
    ≡ ok (
        record { entry_type = EntryType.directory; name = codes "dir"; size = 0 }
        ∷ record { entry_type = EntryType.file; name = codes "bar"; size = 0 }
        ∷ [])
unfolding list components
list_root = refl
