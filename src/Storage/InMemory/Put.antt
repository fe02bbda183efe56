-- ===== src/Storage/InMemory/Put.antt =====
-- What `put` of in_memory/mod.rs does to the tree.
use btdt.Prelude.{
  ℕ, length, ◌++◌, ◌≡◌, refl, ◌∙◌, true, none, some, List, [], ◌∷◌, arith, Bytes, ite,
  if◌then◌else◌, Bool-cases, inl, inr,
}
use btdt.Io.{
  Result, ok, err, ErrorKind, IoPathError, IoPathResult, error_at, is_a_directory, not_a_directory,
  invalid_input,
}
use btdt.Util.Close.{SelfClosing}
use btdt.Storage.InMemory.PathIter.{starts_with_slash}
use btdt.Storage.InMemory.PathIter.Components.{names, mark, components-eq, not_absolute}
use btdt.Storage.InMemory.FileNode.{FileWriter, writer, new_file}
use btdt.Storage.InMemory.Tree
use btdt.Storage.InMemory.Tree.{
  Node, DirNode, dir, file, end, entry, get_or_insert_dir, create_file,
}
use btdt.Storage.InMemory.Tree.Entries.{insert_same}
use btdt.Storage.InMemory.{InMemoryStorage, put_loop, put_last, put_result, put}
use btdt.Storage.InMemory.Lookup.{status}
use btdt.Storage.InMemory.Nodes.{
  file_at, node-cases, names_dec, node_at-insert, node_at-some, node_at-none, file_at-end,
  file_at_nil,
}

-- Putting a file under some names changes nothing under other names.
put_loop-file_at :
    (path : Bytes) (ns : List Bytes) (n : Bytes) (fresh : ℕ) (d : DirNode) (q : List Bytes) (r : ℕ)
    → (put_loop path (mark (n ∷ ns)) fresh d).1 ≡ ok r
    → file_at q (put_loop path (mark (n ∷ ns)) fresh d).0
      ≡ ite (names_dec (n ∷ ns) q) (some fresh) (file_at q d)
unfolding put_loop put_last create_file get_or_insert_dir
put_loop-file_at path [] n fresh d [] r h = rw (file_at_nil, file_at_nil) (ground arith)
put_loop-file_at path [] n fresh d (j ∷ []) r h =
    ground (arith, node_at-insert n (file fresh) j [] d)
put_loop-file_at path [] n fresh d (j ∷ k ∷ js) r h = elim (node-cases (Tree.get n d)) [
  | inl (sub, e) ↦ ground arith
  | inr (inl (r', e)) ↦
      ground
        (arith, node_at-insert n (file fresh) j (k ∷ js) d, node_at-some j (k ∷ js) d (file r'))
  | inr (inr e) ↦
      ground (arith, node_at-insert n (file fresh) j (k ∷ js) d, node_at-none j (k ∷ js) d)
]
put_loop-file_at path (m ∷ ns) n fresh d [] r h = rw (file_at_nil, file_at_nil) (ground arith)
put_loop-file_at path (m ∷ ns) n fresh d (j ∷ js) r h = elim (node-cases (Tree.get n d)) [
  | inl (sub, e) ↦ ground (
    arith,
    node_at-insert n (dir (put_loop path (mark (m ∷ ns)) fresh sub).0) j js d,
    node_at-some j js d (dir sub),
    put_loop-file_at path ns m fresh sub js r,
  )
  | inr (inl (r', e)) ↦ ground arith
  | inr (inr e) ↦ ground (
    arith,
    node_at-insert n (dir (put_loop path (mark (m ∷ ns)) fresh end).0) j js d,
    node_at-none j js d,
    file_at-end js,
    put_loop-file_at path ns m fresh end js r,
  )
]

-- In an empty directory nothing stands in the way.
put_loop-end :
    (path : Bytes) (ns : List Bytes) (n : Bytes) (fresh : ℕ)
    → (put_loop path (mark (n ∷ ns)) fresh end).1 ≡ ok fresh
unfolding put_loop put_last create_file get_or_insert_dir
put_loop-end path [] n fresh = refl
put_loop-end path (m ∷ ns) n fresh = put_loop-end path ns m fresh

put_loop-fresh :
    (path : Bytes) (ns : List Bytes) (n : Bytes) (fresh : ℕ) (d : DirNode) (r : ℕ)
    → (put_loop path (mark (n ∷ ns)) fresh d).1 ≡ ok r
    → r ≡ fresh
unfolding put_loop put_last create_file get_or_insert_dir
put_loop-fresh path [] n fresh d r h = ground arith
put_loop-fresh path (m ∷ ns) n fresh d r h = elim (node-cases (Tree.get n d)) [
  | inl (sub, e) ↦ ground (arith, put_loop-fresh path ns m fresh sub r)
  | inr (inl (r', e)) ↦ ground arith
  | inr (inr e) ↦ ground (arith, put_loop-fresh path ns m fresh end r)
]

put_loop_error :
    (path : Bytes) (ns : List Bytes) (n : Bytes) (fresh : ℕ) (d : DirNode) (e : IoPathError)
    → (put_loop path (mark (n ∷ ns)) fresh d).1 ≡ err e
    → (put_loop path (mark (n ∷ ns)) fresh d).0 ≡ d
unfolding put_loop put_last create_file get_or_insert_dir
put_loop_error path [] n fresh d e h = ground arith
put_loop_error path (m ∷ ns) n fresh d e h = elim (node-cases (Tree.get n d)) [
  | inl (sub, g) ↦ ground (arith, put_loop_error path ns m fresh sub e, insert_same n (dir sub) d)
  | inr (inl (r, g)) ↦ ground arith
  | inr (inr g) ↦ ground (arith, put_loop-end path ns m fresh)
]

put-eq :
    (path : Bytes) (s : InMemoryStorage)
    → put path s ≡ (
        if starts_with_slash path
        then put_result s (put_loop path (mark (names path)) (length s.files) s.root)
        else (s, err (error_at not_absolute path)))
unfolding put
put-eq path s = elim (Bool-cases (starts_with_slash path)) [
  | inl h ↦ rw (components-eq, h)
  | inr h ↦ rw (components-eq, h)
]

-- What a `put` that succeeds has done: the file under the path has a new content, at the place
-- that its writer writes to, and the tree and the contents are otherwise what they were.
pub record Placed (path : Bytes) (s s' : InMemoryStorage) (r : ℕ) : Type 0 where
  pub tree :
      (q : List Bytes)
      → file_at q s'.root
        ≡ ite (names_dec (names path) q) (some (length s.files)) (file_at q s.root)
  pub files : s'.files ≡ s.files ++ ([] ∷ [])
  pub fresh : r ≡ length s.files

put_result-ok :
    (s s' : InMemoryStorage) (w : SelfClosing FileWriter) (x : DirNode × IoPathResult ℕ)
    → put_result s x ≡ (s', ok w)
    → (x.1 ≡ ok w.inner.file_node) × (s'.root ≡ x.0) × (s'.files ≡ s.files ++ ([] ∷ []))
unfolding put_result new_file writer
put_result-ok s s' w (root, ok r) h = ground arith
put_result-ok s s' w (root, err e) h = ground arith

put_result-err :
    (s s' : InMemoryStorage) (e : IoPathError) (x : DirNode × IoPathResult ℕ)
    → put_result s x ≡ (s', err e)
    → (x.1 ≡ err e) × (s' ≡ record s { root = x.0 })
unfolding put_result
put_result-err s s' e (root, ok r) h = ground arith
put_result-err s s' e (root, err x) h = ground arith

loop-Placed :
    (path : Bytes) (s s' : InMemoryStorage) (w : SelfClosing FileWriter) (ns : List Bytes)
    → ns ≡ names path
    → put_result s (put_loop path (mark ns) (length s.files) s.root) ≡ (s', ok w)
    → Placed path s s' w.inner.file_node
unfolding put_result put_loop
loop-Placed path s s' w [] e h = ground arith
loop-Placed path s s' w (n ∷ ns) e h =
    let (g, root, files) =
      put_result-ok s s' w (put_loop path (mark (n ∷ ns)) (length s.files) s.root) h in
    record {
      tree = λ q.
          rw (root, ← e) (put_loop-file_at path ns n (length s.files) s.root q w.inner.file_node g);
      files = files;
      fresh = put_loop-fresh path ns n (length s.files) s.root w.inner.file_node g;
    }

pub put-Placed :
    (path : Bytes) (s s' : InMemoryStorage) (w : SelfClosing FileWriter)
    → put path s ≡ (s', ok w)
    → Placed path s s' w.inner.file_node
put-Placed path s s' w h = elim (Bool-cases (starts_with_slash path)) [
  | inl a ↦ loop-Placed path s s' w (names path) refl (ground (arith, put-eq path s))
  | inr a ↦ ground (arith, put-eq path s)
]

put_error_loop :
    (path : Bytes) (s s' : InMemoryStorage) (e : IoPathError) (ns : List Bytes)
    → put_result s (put_loop path (mark ns) (length s.files) s.root) ≡ (s', err e)
    → s' ≡ s
unfolding put_result put_loop
put_error_loop path s s' e [] h = ground arith
put_error_loop path s s' e (n ∷ ns) h =
    let (g, same) =
      put_result-err s s' e (put_loop path (mark (n ∷ ns)) (length s.files) s.root) h in
    ground (arith, put_loop_error path ns n (length s.files) s.root e g)

-- A `put` that fails has changed nothing: it leaves no directory that it made on the way.
pub put_error :
    (path : Bytes) (s s' : InMemoryStorage) (e : IoPathError) → put path s ≡ (s', err e) → s' ≡ s
put_error path s s' e h = elim (Bool-cases (starts_with_slash path)) [
  | inl a ↦ put_error_loop path s s' e (names path) (ground (arith, put-eq path s))
  | inr a ↦ ground (arith, put-eq path s)
]

pub put-starts_with_slash :
    (path : Bytes) (s s' : InMemoryStorage) (w : SelfClosing FileWriter)
    → put path s ≡ (s', ok w)
    → starts_with_slash path ≡ true
put-starts_with_slash path s s' w h = ground (arith, put-eq path s)

-- The outcome of a `put` below a node, by the names that are left: a name that is free can be
-- taken, a file can be replaced, and a directory can be entered but not replaced.
unfoldable pub placement : List Bytes → Node → Result (Unit {0}) ErrorKind
placement [] (file r) = ok tt
placement [] (dir d) = err is_a_directory
placement (n ∷ ns) (file r) = err not_a_directory
placement (n ∷ ns) (dir d) = elim (Tree.get n d) [ none ↦ ok tt | some node ↦ placement ns node ]

abbrev pub placement_at : InMemoryStorage → List Bytes → Result (Unit {0}) ErrorKind
placement_at s [] = err invalid_input
placement_at s (n ∷ ns) = placement (n ∷ ns) (dir s.root)

put_loop-status :
    (path : Bytes) (ns : List Bytes) (n : Bytes) (fresh : ℕ) (d : DirNode)
    → status (put_loop path (mark (n ∷ ns)) fresh d).1 ≡ placement (n ∷ ns) (dir d)
unfolding put_loop put_last create_file get_or_insert_dir placement
put_loop-status path [] n fresh d = ground arith
put_loop-status path (m ∷ ns) n fresh d = elim (node-cases (Tree.get n d)) [
  | inl (sub, e) ↦ ground (arith, put_loop-status path ns m fresh sub)
  | inr (inl (r, e)) ↦ ground arith
  | inr (inr e) ↦ ground (arith, put_loop-end path ns m fresh)
]

put_result-status :
    (s : InMemoryStorage) (x : DirNode × IoPathResult ℕ) → status (put_result s x).1 ≡ status x.1
unfolding put_result
put_result-status s (root, ok r) = refl
put_result-status s (root, err e) = refl

-- On every path: `put` succeeds exactly if no file stands on the way and no directory stands at the
-- end, and fails with "not a directory" or "is a directory" otherwise; it refuses the root, and a
-- path that is not absolute, as invalid input.
pub put-status :
    (path : Bytes) (s : InMemoryStorage)
    → status (put path s).1
      ≡ (if starts_with_slash path then placement_at s (names path) else err invalid_input)
put-status path s = elim (Bool-cases (starts_with_slash path)) [
  | inl a ↦ rw (put-eq, a) (put_result-status s _ ∙ by_names (names path))
  | inr a ↦ rw (put-eq, a)
]
  where
    by_names :
        (ns : List Bytes)
        → status (put_loop path (mark ns) (length s.files) s.root).1 ≡ placement_at s ns
    by_names [] = unfold put_loop in refl
    by_names (n ∷ ns) = put_loop-status path ns n (length s.files) s.root
