-- ===== src/Storage/InMemory/Delete.antt =====
-- What `delete` of in_memory/mod.rs does to the tree.
use btdt.Prelude.{
  ℕ, ◌+◌, ◌≡◌, refl, ◌∙◌, true, Option, none, some, List, [], ◌∷◌, arith, Bytes, ite, if◌then◌else◌,
  Bool-cases, inl, inr,
}
use btdt.Io.{
  Result-cases, Result, ok, err, ◌>>=◌, ErrorKind, IoPathResult, not_found, directory_not_empty,
  invalid_input,
}
use btdt.Storage.InMemory.PathIter.{starts_with_slash}
use btdt.Storage.InMemory.PathIter.Components.{names, mark, components-eq}
use btdt.Storage.InMemory.Tree
use btdt.Storage.InMemory.Tree.{Node, DirNode, dir, file, end, entry}
use btdt.Storage.InMemory.{InMemoryStorage, delete_loop, delete, no_such}
use btdt.Storage.InMemory.Lookup.{fail_at-ne-ok, fail_at-status, status}
use btdt.Storage.InMemory.Nodes.{
  node_at, file_at, node-cases, names_dec, node_at-insert, node_at-remove, node_at-some,
  file_at-end, file_at_nil,
}

deleted_dir :
    (n : Bytes) (sub d d' : DirNode) (j : Bytes) (js : List Bytes)
    → Tree.get n d ≡ some (dir sub)
    → Tree.delete n d ≡ ok d'
    → file_at (j ∷ js) d' ≡ ite (names_dec (n ∷ []) (j ∷ js)) none (file_at (j ∷ js) d)
unfolding Tree.delete
deleted_dir n end d d' j js e h =
    ground (arith, node_at-remove n j js d, node_at-some j js d (dir end), file_at-end js)
deleted_dir n (entry k v rest) d d' j js e h = ground arith

-- Deleting under some names changes nothing under other names.
delete_loop-file_at :
    (path : Bytes) (ns : List Bytes) (n : Bytes) (i : ℕ) (d d' : DirNode) (q : List Bytes)
    → delete_loop path (mark (n ∷ ns)) i d ≡ ok d'
    → file_at q d' ≡ ite (names_dec (n ∷ ns) q) none (file_at q d)
unfolding delete_loop Tree.delete
delete_loop-file_at path [] n i d d' [] h = rw (file_at_nil, file_at_nil) (ground arith)
delete_loop-file_at path [] n i d d' (j ∷ js) h = elim (node-cases (Tree.get n d)) [
  | inl (sub, e) ↦ deleted_dir n sub d d' j js e h
  | inr (inl (r, e)) ↦ ground (arith, node_at-remove n j js d, node_at-some j js d (file r))
  | inr (inr e) ↦ ground arith
]
delete_loop-file_at path (m ∷ ns) n i d d' [] h = rw (file_at_nil, file_at_nil) (ground arith)
delete_loop-file_at path (m ∷ ns) n i d d' (j ∷ js) h = elim (node-cases (Tree.get n d)) [
  | inl (sub, e) ↦ elim (Result-cases (delete_loop path (mark (m ∷ ns)) (i + 1) sub)) [
    | inl (sub', g) ↦ ground (
      arith,
      node_at-insert n (dir sub') j js d,
      node_at-some j js d (dir sub),
      delete_loop-file_at path ns m (i + 1) sub sub' js g,
    )
    | inr (x, g) ↦ ground arith
  ]
  | inr (inl (r, e)) ↦ ground (arith, fail_at-ne-ok path (i + 1) no_such d')
  | inr (inr e) ↦ ground (arith, fail_at-ne-ok path (i + 1) no_such d')
]

-- The outcome of a deletion, by the node that is to go.
abbrev pub removal : Option Node → Result (Unit {0}) ErrorKind
removal none = err not_found
removal (some (file r)) = ok tt
removal (some (dir end)) = ok tt
removal (some (dir (entry n node d))) = err directory_not_empty

removal_last :
    (n : Bytes) (o : Option Node) (d : DirNode) → status (Tree.delete_node n o d) ≡ removal o
unfolding Tree.delete_node
removal_last n none d = refl
removal_last n (some (file r)) d = refl
removal_last n (some (dir end)) d = refl
removal_last n (some (dir (entry k v rest))) d = refl

-- What is done after a success changes no status.
status-bind :
    {A B : Type 0} (r : IoPathResult A) (f : A → B) → status (r >>= λ a. ok (f a)) ≡ status r
status-bind (ok a) f = refl
status-bind (err e) f = refl

abbrev pub removal_at : InMemoryStorage → List Bytes → Result (Unit {0}) ErrorKind
removal_at s [] = err invalid_input
removal_at s (n ∷ ns) = removal (node_at (n ∷ ns) s.root)

delete_loop-status :
    (path : Bytes) (ns : List Bytes) (n : Bytes) (i : ℕ) (d : DirNode)
    → starts_with_slash path ≡ true
    → status (delete_loop path (mark (n ∷ ns)) i d) ≡ removal (node_at (n ∷ ns) d)
unfolding delete_loop node_at Tree.delete
delete_loop-status path [] n i d h = removal_last n (Tree.get n d) d ∙ ground arith
delete_loop-status path (m ∷ ns) n i d h = elim (node-cases (Tree.get n d)) [
  | inl (sub, e) ↦
      rw (e, delete_loop, node_at)
        (status-bind (delete_loop path (mark (m ∷ ns)) (i + 1) sub) _
          ∙ delete_loop-status path ns m (i + 1) sub h)
  | inr (inl (r, e)) ↦ rw (e, delete_loop, node_at) (fail_at-status DirNode path (i + 1) no_such h)
  | inr (inr e) ↦ rw (e, delete_loop, node_at) (fail_at-status DirNode path (i + 1) no_such h)
]

delete_loop-ok :
    (path : Bytes) (s s' : InMemoryStorage) (q ns : List Bytes)
    → (delete_loop path (mark ns) 0 s.root >>= λ root. ok (record s { root = root })) ≡ ok s'
    → file_at q s'.root ≡ ite (names_dec ns q) none (file_at q s.root)
delete_loop-ok path s s' q [] h = unfold delete_loop in ground arith
delete_loop-ok path s s' q (n ∷ ns) h =
    elim (Result-cases (delete_loop path (mark (n ∷ ns)) 0 s.root)) [
      | inl (d', g) ↦ ground (arith, delete_loop-file_at path ns n 0 s.root d' q g)
      | inr (e, g) ↦ ground arith
    ]

pub delete-file_at :
    (path : Bytes) (s s' : InMemoryStorage) (q : List Bytes)
    → delete path s ≡ ok s'
    → file_at q s'.root ≡ ite (names_dec (names path) q) none (file_at q s.root)
unfolding delete
delete-file_at path s s' q h = elim (Bool-cases (starts_with_slash path)) [
  | inl a ↦ delete_loop-ok path s s' q (names path) (ground (arith, components-eq path))
  | inr a ↦ ground (arith, components-eq path)
]

pub files-delete :
    (path : Bytes) (s s' : InMemoryStorage) → delete path s ≡ ok s' → s'.files ≡ s.files
unfolding delete
files-delete path s s' h = ground arith

-- On every path: `delete` removes a file or an empty directory, and fails with "directory not empty"
-- or "not found" for anything else; it refuses the root, and a path that is not absolute.
pub delete-status :
    (path : Bytes) (s : InMemoryStorage)
    → status (delete path s)
      ≡ (if starts_with_slash path then removal_at s (names path) else err invalid_input)
unfolding delete delete_loop
delete-status path s = elim (Bool-cases (starts_with_slash path)) [
  | inl a ↦
      rw (components-eq, a)
        (status-bind (delete_loop path (mark (names path)) 0 s.root) _ ∙ by_names (names path) a)
  | inr a ↦ rw (components-eq, a)
]
  where
    by_names :
        (ns : List Bytes)
        → starts_with_slash path ≡ true
        → status (delete_loop path (mark ns) 0 s.root) ≡ removal_at s ns
    by_names [] a = refl
    by_names (n ∷ ns) a = delete_loop-status path ns n 0 s.root a
