-- ===== src/Storage/InMemory/RoundTrip.antt =====
-- What is written through the writer of `put` is read back through the reader of `get`.
use btdt.Prelude.{
  sum, AllPositive, concat, ℕ, ◌≤◌, ◌<◌, ◌≡◌, refl, ◌∙◌, ap, some, List, [], ◌∷◌, ◌++◌, arith,
  Bytes, length, length-set, length-append, get_or-set_self, get_or-append_self,
}
use mathlib.Core.List.{append-nil, append_assoc}
use btdt.Io.{ok}
use btdt.Storage.{FileHandle}
use btdt.Util.Close.{SelfClosing}
use btdt.Storage.InMemory.PathIter.Components.{names}
use btdt.Storage.InMemory.FileNode
use btdt.Storage.InMemory.FileNode.{
  Contents, FileWriter, FileReader, content, write, read_all, reader,
}
use btdt.Storage.InMemory.FileNode.Reading.{read_all-eq-drop}
use btdt.Storage.InMemory.{InMemoryStorage, put, get}
use btdt.Storage.InMemory.Nodes.{file_at, file_at_nil}
use btdt.Storage.InMemory.Lookup.{kind_of, get-eq, lookup}
use btdt.Storage.InMemory.Put.{put-Placed, put-starts_with_slash}
use btdt.Storage.InMemory.View.{write_file}

-- `write_all` of each of the buffers, in order.
pub write_bufs : FileWriter → List Bytes → InMemoryStorage → InMemoryStorage
write_bufs w [] s = s
write_bufs w (buf ∷ bufs) s = write_bufs w bufs (write_file w buf s)

content-write_bufs :
    (w : FileWriter) (bufs : List Bytes) (s : InMemoryStorage)
    → w.file_node < length s.files
    → content (write_bufs w bufs s).files w.file_node ≡ content s.files w.file_node ++ concat bufs
unfolding write_bufs write_file write
content-write_bufs w [] s h = rw append-nil
content-write_bufs w (buf ∷ bufs) s h =
    content-write_bufs w bufs (write_file w buf s)
      (omega (arith, length-set s.files w.file_node (content s.files w.file_node ++ buf)))
    ∙ rw (get_or-set_self s.files w.file_node (content s.files w.file_node ++ buf) [] h)
        (append_assoc (content s.files w.file_node) buf (concat bufs))

root-write_bufs :
    (w : FileWriter) (bufs : List Bytes) (s : InMemoryStorage) → (write_bufs w bufs s).root ≡ s.root
unfolding write_bufs write_file
root-write_bufs w [] s = refl
root-write_bufs w (buf ∷ bufs) s = root-write_bufs w bufs _

pub lookup-file :
    (s : InMemoryStorage) (ns : List Bytes) (r : ℕ)
    → file_at ns s.root ≡ some r
    → lookup s ns ≡ ok (record { size_hint = FileNode.size s.files r; reader = reader r })
lookup-file s [] r h = ground (arith, file_at_nil s.root)
lookup-file s (n ∷ ns) r h = ground arith

-- After a `put` and any writes through its writer, `get` on the same path returns a reader and the
-- number of bytes written. Reads through it, with buffers that are not empty and together long
-- enough, return the bytes written.
pub get-put :
    (path : Bytes) (s s' : InMemoryStorage) (w : SelfClosing FileWriter) (bufs : List Bytes)
    (sizes : List ℕ)
    → put path s ≡ (s', ok w)
    → AllPositive sizes
    → length (concat bufs) ≤ sum sizes
    → (handle : FileHandle FileReader) × (kind_of (get path (write_bufs w.inner bufs s'))
        ≡ ok handle)
      × (handle.size_hint ≡ length (concat bufs))
      × (read_all handle.reader sizes (write_bufs w.inner bufs s').files ≡ concat bufs)
unfolding FileNode.size reader
get-put path s s' w bufs sizes h pos long =
    let p = put-Placed path s s' w h in
    let t = write_bufs w.inner bufs s' in
    let r = length s.files in
    let there : file_at (names path) t.root ≡ some r =
      ground (arith, p.tree (names path), root-write_bufs w.inner bufs s') in
    let written : content t.files r ≡ concat bufs = ground (
      arith,
      p.fresh,
      p.files,
      length-append s.files ([] ∷ []),
      get_or-append_self s.files [] [],
      content-write_bufs w.inner bufs s',
    ) in
    (
      record { size_hint = FileNode.size t.files r; reader = reader r },
      rw (get-eq, put-starts_with_slash path s s' w h) (lookup-file t (names path) r there),
      ap length written,
      read_all-eq-drop sizes (reader r) t.files pos (ground arith) ∙ written,
    )
