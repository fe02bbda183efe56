-- ===== src/Storage/InMemory/View.antt =====
-- The storage of in_memory as a map from lists of names to file contents.
use btdt.Prelude.{
  ℕ, ◌<◌, ◌≡◌, Option, none, some, List, [], ◌∷◌, ◌++◌, arith, Bytes, ite, length, length-append,
  length-set, get_or-set_self, get_or-set_ne, get_or-append_lt, get_or-append_self, Option-cases,
  inl, inr,
}
use mathlib.Core.Option
use btdt.Io.{ok}
use btdt.Util.Close.{SelfClosing}
use btdt.Storage.InMemory.PathIter.Components.{names}
use btdt.Storage.InMemory.FileNode.{FileWriter, content, write}
use btdt.Storage.InMemory.{InMemoryStorage, put, delete}
use btdt.Storage.InMemory.Nodes.{file_at, names_dec}
use btdt.Storage.InMemory.Put.{put-Placed}
use btdt.Storage.InMemory.Delete.{delete-file_at, files-delete}

-- The content of the file under the names.
abbrev pub contents_at : List Bytes → InMemoryStorage → Option Bytes
contents_at q s = Option.map (content s.files) (file_at q s.root)

-- Every file has a content, and no two names share one.
pub record IsWellFormed (s : InMemoryStorage) : Type 0 where
  pub in_range : (q : List Bytes) (r : ℕ) → file_at q s.root ≡ some r → r < length s.files
  pub distinct :
      (p q : List Bytes) (r : ℕ) → file_at p s.root ≡ some r → file_at q s.root ≡ some r → p ≡ q

-- A call of `write` through a writer of the storage.
unfoldable pub write_file : FileWriter → Bytes → InMemoryStorage → InMemoryStorage
write_file w buf s = record s { files = (write w buf s.files).0 }

-- A `put` that succeeds keeps the storage well formed.
pub put-IsWellFormed :
    (path : Bytes) (s s' : InMemoryStorage) (w : SelfClosing FileWriter)
    → IsWellFormed s
    → put path s ≡ (s', ok w)
    → IsWellFormed s'
put-IsWellFormed path s s' w wf h =
    let p = put-Placed path s s' w h in
    record {
      in_range = λ q r g.
          ground (arith, p.tree q, p.files, wf.in_range q r, length-append s.files ([] ∷ []));
      distinct = λ a b r f g.
          ground (arith, p.tree a, p.tree b, wf.distinct a b r, wf.in_range a r, wf.in_range b r);
    }

-- In a well-formed storage, after a `put` that succeeds, and before its writer is closed, the file
-- under the path is empty, and every other content is what it was.
pub contents_at-put :
    (path : Bytes) (s s' : InMemoryStorage) (w : SelfClosing FileWriter) (q : List Bytes)
    → IsWellFormed s
    → put path s ≡ (s', ok w)
    → contents_at q s' ≡ ite (names_dec (names path) q) (some []) (contents_at q s)
contents_at-put path s s' w q wf h =
    let p = put-Placed path s s' w h in
    elim (Option-cases (file_at q s.root)) [
      | inl a ↦ ground (arith, p.tree q, p.files, get_or-append_self s.files [] [])
      | inr (r, a) ↦ ground (
        arith,
        p.tree q,
        p.files,
        get_or-append_self s.files [] [],
        get_or-append_lt s.files ([] ∷ []) r [] (wf.in_range q r a),
      )
    ]

-- In a well-formed storage, a write through the writer of the file under `p` appends to that file
-- alone.
pub contents_at-write_file :
    (p q : List Bytes) (w : FileWriter) (buf : Bytes) (s : InMemoryStorage)
    → IsWellFormed s
    → file_at p s.root ≡ some w.file_node
    → contents_at q (write_file w buf s)
      ≡ ite (names_dec p q) (Option.map (λ c. c ++ buf) (contents_at p s)) (contents_at q s)
unfolding write_file write
contents_at-write_file p q w buf s wf h = elim (Option-cases (file_at q s.root)) [
  | inl a ↦ ground arith
  | inr (r, a) ↦ ground (
    arith,
    wf.distinct p q r,
    get_or-set_self s.files r (content s.files r ++ buf) [] (wf.in_range q r a),
    get_or-set_ne s.files w.file_node r (content s.files w.file_node ++ buf) [],
  )
]

-- After a deletion that succeeds the file under the path is gone, and every other content is what it
-- was.
pub contents_at-delete :
    (path : Bytes) (s s' : InMemoryStorage) (q : List Bytes)
    → delete path s ≡ ok s'
    → contents_at q s' ≡ ite (names_dec (names path) q) none (contents_at q s)
contents_at-delete path s s' q h =
    ground (arith, delete-file_at path s s' q h, files-delete path s s' h)

-- A deletion that succeeds keeps the storage well formed.
pub delete-IsWellFormed :
    (path : Bytes) (s s' : InMemoryStorage)
    → IsWellFormed s
    → delete path s ≡ ok s'
    → IsWellFormed s'
delete-IsWellFormed path s s' wf h = record {
  in_range = λ q r g.
      ground (arith, delete-file_at path s s' q h, files-delete path s s' h, wf.in_range q r);
  distinct = λ a b r f g.
      ground (arith, delete-file_at path s s' a h, delete-file_at path s s' b h, wf.distinct a b r);
}

-- A write keeps the storage well formed.
pub write_file-IsWellFormed :
    (w : FileWriter) (buf : Bytes) (s : InMemoryStorage)
    → IsWellFormed s
    → IsWellFormed (write_file w buf s)
unfolding write_file write
write_file-IsWellFormed w buf s wf = record {
  in_range = λ q r g.
      ground (
        arith,
        wf.in_range q r,
        length-set s.files w.file_node (content s.files w.file_node ++ buf),
      );
  distinct = wf.distinct;
}
