-- ===== src/Storage/InMemory/Nodes.antt =====
-- The nodes of the tree of in_memory/mod.rs under lists of names, after changes of one directory.
use btdt.Prelude.{
  ℕ, ◌≡◌, refl, Option, none, some, List, [], ◌∷◌, arith, Bytes, ite, bytes_dec, inl, inr, ◌⊎◌,
}
use btdt.Storage.InMemory.Tree
use btdt.Storage.InMemory.Tree.{Node, DirNode, dir, file, end, entry}
use btdt.Storage.InMemory.Tree.Entries.{get-insert, get-remove}

abbrev leaf : List Bytes → ℕ → Option Node
leaf [] r = some (file r)
leaf (n ∷ ns) r = none

-- The node under the names, from a directory downwards.
unfoldable pub node_at : List Bytes → DirNode → Option Node
node_at [] d = some (dir d)
node_at (n ∷ ns) d = elim (Tree.get n d) [
  | some (dir sub) ↦ node_at ns sub
  | some (file r) ↦ leaf ns r
  | none ↦ none
]

abbrev pub as_file : Option Node → Option ℕ
as_file (some (file r)) = some r
as_file _ = none

-- The place of the content of the file under the names, if there is a file.
abbrev pub file_at : List Bytes → DirNode → Option ℕ
file_at ns d = as_file (node_at ns d)

pub node-cases :
    (o : Option Node)
    → ((d : DirNode) × (o ≡ some (dir d))) ⊎ (((r : ℕ) × (o ≡ some (file r))) ⊎ (o ≡ none))
node-cases none = inr (inr refl)
node-cases (some (dir d)) = inl (d, refl)
node-cases (some (file r)) = inr (inl (r, refl))

pub names_dec : Discrete (List Bytes)
names_dec = hlevel bytes_dec

pub file_at-end : (q : List Bytes) → file_at q end ≡ none
unfolding node_at Tree.get
file_at-end [] = refl
file_at-end (j ∷ js) = refl

pub file_at_nil : (d : DirNode) → file_at [] d ≡ none
unfolding node_at
file_at_nil d = refl

-- The node under the names `ns` below a node.
abbrev pub under : List Bytes → Node → Option Node
under ns (dir sub) = node_at ns sub
under [] (file r) = some (file r)
under (n ∷ ns) (file r) = none

pub node_at-insert :
    (n : Bytes) (v : Node) (j : Bytes) (js : List Bytes) (d : DirNode)
    → node_at (j ∷ js) (Tree.insert n v d) ≡ ite (bytes_dec n j) (under js v) (node_at (j ∷ js) d)
unfolding node_at
node_at-insert n v j [] d = ground (arith, get-insert n j v d)
node_at-insert n v j (k ∷ js) d = ground (arith, get-insert n j v d)

pub node_at-some :
    (j : Bytes) (js : List Bytes) (d : DirNode) (v : Node)
    → Tree.get j d ≡ some v
    → node_at (j ∷ js) d ≡ under js v
unfolding node_at
node_at-some j [] d (dir sub) h = rw (h, node_at)
node_at-some j (k ∷ js) d (dir sub) h = rw (h, node_at)
node_at-some j [] d (file r) h = rw (h, node_at)
node_at-some j (k ∷ js) d (file r) h = rw (h, node_at)

pub node_at-none :
    (j : Bytes) (js : List Bytes) (d : DirNode) → Tree.get j d ≡ none → node_at (j ∷ js) d ≡ none
unfolding node_at
node_at-none j js d h = rw (h, node_at)

pub node_at-remove :
    (n j : Bytes) (js : List Bytes) (d : DirNode)
    → node_at (j ∷ js) (Tree.remove n d) ≡ ite (bytes_dec n j) none (node_at (j ∷ js) d)
unfolding node_at
node_at-remove n j js d = ground (arith, get-remove n j d)
