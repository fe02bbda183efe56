-- ===== src/Storage/InMemory/Lookup.antt =====
-- What the tree of in_memory/mod.rs holds under a list of names, and what `get` and `exists_file` say of it.
use btdt.Prelude.{
  ℕ, ◌+◌, ◌≡◌, ◌≢◌, refl, ◌∙◌, ap, true, false, Bool, Option, none, some, List, [], ◌∷◌, arith,
  Bytes, if◌then◌else◌, Bool-cases, inl, inr,
}
use btdt.Io.{
  Result, ok, err, ErrorKind, IoError, IoPathError, IoPathResult, map_err, not_found,
  is_a_directory, invalid_input,
}
use btdt.Storage.{FileHandle}
use btdt.Storage.InMemory.PathIter.{starts_with_slash}
use btdt.Storage.InMemory.PathIter.Components.{names, mark, components-eq}
use btdt.Storage.InMemory.FileNode
use btdt.Storage.InMemory.FileNode.{Contents, FileReader, reader}
use btdt.Storage.InMemory.Tree
use btdt.Storage.InMemory.Nodes.{node_at, node-cases}
use btdt.Storage.InMemory.Tree.{Node, DirNode, dir, file, end, entry}
use btdt.Storage.InMemory.{
  InMemoryStorage, fail_at, get_last, get_loop, get, no_such, exists_by_kind, exists_file,
}

-- A result with its error's kind alone.
abbrev pub kind_of : {A : Type 0} → IoPathResult A → Result A ErrorKind
kind_of = map_err (λ e. e.error.kind)

pub fail_at-kind :
    {A : Type 0} (path : Bytes) (n : ℕ) (e : IoError)
    → starts_with_slash path ≡ true
    → kind_of (fail_at {A = A} path n e) ≡ err e.kind
unfolding fail_at
fail_at-kind path n e h = rw (components-eq, h)

-- Whether a result is a success, or its error's kind.
abbrev pub status : {A : Type 0} → IoPathResult A → Result (Unit {0}) ErrorKind
status (ok a) = ok tt
status (err e) = err e.error.kind

pub fail_at-status :
    (A : Type 0) (path : Bytes) (n : ℕ) (e : IoError)
    → starts_with_slash path ≡ true
    → status (fail_at {A = A} path n e) ≡ err e.kind
unfolding fail_at
fail_at-status A path n e h = rw (components-eq, h)

pub fail_at-ne-ok :
    {A : Type 0} (path : Bytes) (n : ℕ) (e : IoError) (a : A) → fail_at path n e ≢ ok a
unfolding fail_at
fail_at-ne-ok path n e a h = ground arith

-- The answer of `get` for the node at the end of a path.
abbrev pub found : Contents → Option Node → Result (FileHandle FileReader) ErrorKind
found fs (some (file r)) = ok (record { size_hint = FileNode.size fs r; reader = reader r })
found fs (some (dir d)) = err is_a_directory
found fs none = err not_found

get_loop-kind :
    (path : Bytes) (ns : List Bytes) (n : Bytes) (i : ℕ) (d : DirNode) (fs : Contents)
    → starts_with_slash path ≡ true
    → kind_of (get_loop path (mark (n ∷ ns)) i d fs) ≡ found fs (node_at (n ∷ ns) d)
unfolding get_loop get_last node_at
get_loop-kind path [] n i d fs h = ground (
  arith,
  fail_at-kind {A = FileHandle FileReader} path (i + 1)
      (record { kind = is_a_directory; message = "Is a directory" }),
  fail_at-kind {A = FileHandle FileReader} path (i + 1)
      (record { kind = not_found; message = "File not found" }),
)
get_loop-kind path (m ∷ ns) n i d fs h = elim (node-cases (Tree.get n d)) [
  | inl (sub, e) ↦ rw (e, get_loop, node_at) (get_loop-kind path ns m (i + 1) sub fs h)
  | inr (inl (r, e)) ↦ rw (e, get_loop, node_at) (fail_at-kind path (i + 1) no_such h)
  | inr (inr e) ↦ rw (e, get_loop, node_at) (fail_at-kind path (i + 1) no_such h)
]

-- The answer of `get` by the names of its path alone.
abbrev pub lookup : InMemoryStorage → List Bytes → Result (FileHandle FileReader) ErrorKind
lookup s [] = err invalid_input
lookup s (n ∷ ns) = found s.files (node_at (n ∷ ns) s.root)

get_loop-lookup :
    (path : Bytes) (s : InMemoryStorage) (ns : List Bytes)
    → starts_with_slash path ≡ true
    → kind_of (get_loop path (mark ns) 0 s.root s.files) ≡ lookup s ns
unfolding get_loop
get_loop-lookup path s [] h = refl
get_loop-lookup path s (n ∷ ns) h = get_loop-kind path ns n 0 s.root s.files h

abbrev pub is_file : InMemoryStorage → List Bytes → Result Bool ErrorKind
is_file s [] = err invalid_input
is_file s (n ∷ ns) = elim (node_at (n ∷ ns) s.root) [ some (file r) ↦ ok true | _ ↦ ok false ]

-- On every path: `get` refuses a path that is not absolute or has no component as invalid input.
-- Otherwise it returns a reader at the start of the file under the path's names, with the file's
-- size, or fails with "is a directory" for a directory and with "not found" for anything else.
pub get-eq :
    (path : Bytes) (s : InMemoryStorage)
    → kind_of (get path s)
      ≡ (if starts_with_slash path then lookup s (names path) else err invalid_input)
unfolding get get_loop
get-eq path s = elim (Bool-cases (starts_with_slash path)) [
  | inl h ↦ rw (components-eq, h) (get_loop-lookup path s (names path) h)
  | inr h ↦ rw (components-eq, h)
]

abbrev answer : Result (FileHandle FileReader) ErrorKind → Result Bool ErrorKind
answer (ok h) = ok true
answer (err is_a_directory) = ok false
answer (err not_found) = ok false
answer (err k) = err k

exists_by_kind-answer :
    (e : IoPathError) (k : ErrorKind)
    → e.error.kind ≡ k
    → kind_of (exists_by_kind e k) ≡ answer (err k)
unfolding exists_by_kind
exists_by_kind-answer e is_a_directory h = refl
exists_by_kind-answer e not_found h = refl
exists_by_kind-answer e _ h = ap err h

exists_file-answer :
    (path : Bytes) (s : InMemoryStorage)
    → kind_of (exists_file path s) ≡ answer (kind_of (get path s))
unfolding exists_file
exists_file-answer path s = split (get path s)
  where
    split :
        (r : IoPathResult (FileHandle FileReader))
        → kind_of (elim r [ ok h ↦ ok true | err e ↦ exists_by_kind e e.error.kind ])
          ≡ answer (kind_of r)
    split (ok h) = refl
    split (err e) = exists_by_kind-answer e e.error.kind refl

-- On every path: `exists_file` answers yes for a file, and no for a directory and for nothing; it
-- refuses a path that is not absolute or has no component as invalid input.
pub exists_file-eq :
    (path : Bytes) (s : InMemoryStorage)
    → kind_of (exists_file path s)
      ≡ (if starts_with_slash path then is_file s (names path) else err invalid_input)
exists_file-eq path s =
    exists_file-answer path s ∙ rw get-eq (by_case (starts_with_slash path) (names path))
  where
    by_case :
        (b : Bool) (ns : List Bytes)
        → answer (if b then lookup s ns else err invalid_input)
          ≡ (if b then is_file s ns else err invalid_input)
    by_case false ns = refl
    by_case true [] = refl
    by_case true (n ∷ ns) = ground arith
