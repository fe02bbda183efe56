-- ===== src/Storage/InMemory/Implements.antt =====
-- The storage of in_memory implements the interface of a storage, and keeps its promises.
use btdt.Prelude.{
  ℕ, ◌≤◌, ◌≡◌, ◌≢◌, refl, ◌∙◌, sym, ap, true, Option, none, some, List, [], ◌∷◌, ◌++◌, map, arith,
  Bytes, length, take, if◌then◌else◌, Option-cases, inl, inr, get_or-append_self, get_or-append_lt,
  get_or-set_self, get_or-set_ne,
}
use btdt.Io.{invalid_input, ok, err, IoPathResult, IoPathError, ErrorKind, not_found}
use btdt.Util.Close
use btdt.Util.Close.{SelfClosing}
use btdt.Storage.{FileHandle, StorageEntry}
use btdt.Storage.Interface.{Storage, View, Touches, Touches-refl, IsLawful}
use btdt.Storage.InMemory.PathIter.{starts_with_slash}
use btdt.Storage.InMemory.PathIter.Components.{names}
use btdt.Storage.InMemory.FileNode
use btdt.Storage.InMemory.FileNode.{FileReader, FileWriter, content, reader, write, read_exact}
use btdt.Storage.InMemory.FileNode.Reading.{read_exact-eq-take}
use btdt.Storage.InMemory
use btdt.Storage.InMemory.{InMemoryStorage}
use btdt.Storage.InMemory.Nodes.{file_at, node_at}
use btdt.Storage.InMemory.Lookup.{kind_of, get-eq, lookup}
use btdt.Storage.InMemory.RoundTrip.{lookup-file}
use btdt.Storage.InMemory.Put.{put-Placed, put_error, put-starts_with_slash}
use btdt.Storage.InMemory.View.{
  contents_at, IsWellFormed, put-IsWellFormed, contents_at-put, write_file, write_file-IsWellFormed,
  contents_at-write_file,
}

abbrev delete_result :
    InMemoryStorage → IoPathResult InMemoryStorage → InMemoryStorage × IoPathResult (Unit {0})
delete_result s (ok s') = (s', ok tt)
delete_result s (err e) = (s, err e)

abbrev list_result :
    IoPathResult (List StorageEntry) → IoPathResult (List (IoPathResult StorageEntry))
list_result (ok entries) = ok (map ok entries)
list_result (err e) = err e

-- A call of `write` takes the whole buffer, so `write_all` makes one.
abbrev pub memory : Storage
memory = record {
  State = InMemoryStorage;
  Reader = FileReader;
  Writer = SelfClosing FileWriter;
  delete = λ p s. delete_result s (InMemory.delete p s);
  get = InMemory.get;
  list = λ p s. list_result (InMemory.list p s);
  put = InMemory.put;
  write_all = λ w b s. (write_file w.inner b s, ok tt);
  close = λ w s. (s, Close.close w);
  read_exact = λ r n s. read_exact r n s.files;
}

abbrev pub content_of : InMemoryStorage → Bytes → Option Bytes
content_of s p = if starts_with_slash p then contents_at (names p) s else none

-- Two paths are apart if their names differ.
abbrev pub memory_view : View memory
memory_view = record {
  Good = IsWellFormed;
  Apart = λ p q. names p ≢ names q;
  content = content_of;
  hint = length;
  Absent = λ s p. (starts_with_slash p ≡ true) × (names p ≢ []) × (node_at (names p) s.root ≡ none);
  Owns = λ s w p b.
      (starts_with_slash p ≡ true)
      × (file_at (names p) s.root ≡ some w.inner.file_node)
      × (content s.files w.inner.file_node ≡ b);
}

kind_of-ok : {A : Type 0} (r : IoPathResult A) (a : A) → kind_of r ≡ ok a → r ≡ ok a
kind_of-ok (ok x) a h = ground arith
kind_of-ok (err e) a h = cc

kind_of-err :
    {A : Type 0} (r : IoPathResult A) (k : ErrorKind)
    → kind_of r ≡ err k
    → (e : IoPathError) × (r ≡ err e) × (e.error.kind ≡ k)
kind_of-err (ok x) k h = cc
kind_of-err (err e) k h = (e, refl, ground arith)

-- A file with a content has a node.
node_of :
    (p c : Bytes) (s : InMemoryStorage)
    → content_of s p ≡ some c
    → (r : ℕ) × (starts_with_slash p ≡ true)
      × (file_at (names p) s.root ≡ some r)
      × (content s.files r ≡ c)
node_of p c s h = elim (Option-cases (file_at (names p) s.root)) [
  | inl a ↦ absurd (ground arith)
  | inr (r, a) ↦ (r, ground arith, a, ground arith)
]

get_found :
    (p c : Bytes) (s : InMemoryStorage)
    → content_of s p ≡ some c
    → (h : FileHandle FileReader) × (InMemory.get p s ≡ ok h)
      × (h.size_hint ≡ length c)
      × ((n : ℕ) → n ≤ length c → read_exact h.reader n s.files ≡ ok (take n c))
get_found p c s h =
    let (r, slash, there, holds) = node_of p c s h in
    (
      record { size_hint = FileNode.size s.files r; reader = reader r },
      kind_of-ok (InMemory.get p s) _ (rw (get-eq, slash) (lookup-file s (names p) r there)),
      unfold FileNode.size in ap length holds,
      λ n le. read_exact-eq-take r n s.files (rw holds le) ∙ ap (λ x. ok (take n x)) holds,
    )

get_absent :
    (p : Bytes) (s : InMemoryStorage)
    → starts_with_slash p ≡ true
    → names p ≢ []
    → node_at (names p) s.root ≡ none
    → (e : IoPathError) × (InMemory.get p s ≡ err e) × (e.error.kind ≡ not_found)
get_absent p s slash some_name gone =
    kind_of-err (InMemory.get p s) not_found (rw (get-eq, slash) (missing (names p) some_name gone))
  where
    missing :
        (ns : List Bytes)
        → ns ≢ []
        → node_at ns s.root ≡ none
        → (if true then lookup s ns else err invalid_input) ≡ err not_found
    missing [] a b = absurd (a refl)
    missing (n ∷ ns) a b = rw b

-- A `put` touches the file under its path alone, and its writer owns that file.
put-Touches :
    (p : Bytes) (s : InMemoryStorage)
    → IsWellFormed s
    → Touches memory_view p s (InMemory.put p s).0
put-Touches p s g = go (InMemory.put p s).0 (InMemory.put p s).1 refl
  where
    go :
        (s' : InMemoryStorage) (r : IoPathResult (SelfClosing FileWriter))
        → InMemory.put p s ≡ (s', r)
        → Touches memory_view p s s'
    go s' (ok w) h =
        let t = put-Placed p s s' w h in
        record {
          good = put-IsWellFormed p s s' w g h;
          content_eq = λ q a. ground (arith, contents_at-put p s s' w (names q) g h);
          owns = λ v q b a o. (
            o.0,
            ground (arith, t.tree (names q), o.1),
            rw t.files (
                get_or-append_lt s.files ([] ∷ []) v.inner.file_node []
                  (g.in_range (names q) v.inner.file_node o.1)
                ∙ o.2),
          );
        }
    go s' (err e) h = rw (put_error p s s' e h) (Touches-refl p s g)

put_owns :
    (p : Bytes) (s : InMemoryStorage) (w : SelfClosing FileWriter)
    → (InMemory.put p s).1 ≡ ok w
    → memory_view.Owns (InMemory.put p s).0 w p []
put_owns p s w h =
    let e : InMemory.put p s ≡ ((InMemory.put p s).0, ok w) = λ i. ((InMemory.put p s).0, h i) in
    let t = put-Placed p s (InMemory.put p s).0 w e in
    (
      put-starts_with_slash p s (InMemory.put p s).0 w e,
      ground (arith, t.tree (names p), t.fresh),
      rw (t.files, t.fresh) (get_or-append_self s.files [] []),
    )

write-Touches :
    (p b c : Bytes) (s : InMemoryStorage) (w : SelfClosing FileWriter)
    → IsWellFormed s
    → memory_view.Owns s w p b
    → Touches memory_view p s (write_file w.inner c s)
unfolding write_file write
write-Touches p b c s w g o = record {
  good = write_file-IsWellFormed w.inner c s g;
  content_eq = λ q a. ground (arith, contents_at-write_file (names p) (names q) w.inner c s g o.1);
  owns = λ v q x a y. (
    y.0,
    y.1,
    get_or-set_ne s.files w.inner.file_node v.inner.file_node
          (content s.files w.inner.file_node ++ c) []
          (λ e. a (g.distinct (names p) (names q) w.inner.file_node o.1 (rw e y.1)))
        ∙ y.2,
  );
}

write_owns :
    (p b c : Bytes) (s : InMemoryStorage) (w : SelfClosing FileWriter)
    → IsWellFormed s
    → memory_view.Owns s w p b
    → memory_view.Owns (write_file w.inner c s) w p (b ++ c)
unfolding write_file write
write_owns p b c s w g o = (
  o.0,
  o.1,
  get_or-set_self s.files w.inner.file_node (content s.files w.inner.file_node ++ c) []
        (g.in_range (names p) w.inner.file_node o.1)
      ∙ ap (λ x. x ++ c) o.2,
)

-- The storage in memory is a lawful storage.
pub memory-IsLawful : IsLawful memory memory_view
unfolding Close.close
memory-IsLawful = record {
  apart_sym = λ p q h e. h (sym e);
  get_found = λ p c s g h. get_found p c s h;
  get_absent = λ p s a. get_absent p s a.0 a.1 a.2;
  put_touches = put-Touches;
  put_owns = λ p s w g h. put_owns p s w h;
  write_touches = write-Touches;
  write_owns = λ p b c s w g o h. write_owns p b c s w g o;
  close_touches = λ p b s w g o. Touches-refl p s g;
  close_content = λ p b s w g o h. ground (arith, o.0, o.1, o.2);
}
