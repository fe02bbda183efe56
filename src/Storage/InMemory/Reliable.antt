-- ===== src/Storage/InMemory/Reliable.antt =====
-- The storage of in_memory can always write a file again.
use btdt.Prelude.{
  ◌≡◌, refl, some, List, [], ◌∷◌, Bytes, arith, ℕ, Option-cases, Bool-cases, inl, inr,
}
use btdt.Io.{ok, err, IoPathResult}
use btdt.Util.Close
use btdt.Storage.Interface.{IsReliable}
use btdt.Storage.InMemory
use btdt.Storage.InMemory.{InMemoryStorage}
use btdt.Storage.InMemory.PathIter.{starts_with_slash}
use btdt.Storage.InMemory.PathIter.Components.{names}
use btdt.Storage.InMemory.Tree
use btdt.Storage.InMemory.Tree.{DirNode, dir, file}
use btdt.Storage.InMemory.Nodes.{node_at, file_at, file_at_nil, node-cases}
use btdt.Storage.InMemory.Lookup.{status}
use btdt.Storage.InMemory.Put.{placement, placement_at, put-status}
use btdt.Storage.InMemory.Implements.{content_of, memory, memory_view}

placement-file :
    (ns : List Bytes) (n : Bytes) (r : ℕ) (d : DirNode)
    → file_at (n ∷ ns) d ≡ some r
    → placement (n ∷ ns) (dir d) ≡ ok tt
unfolding node_at placement
placement-file [] n r d h = elim (node-cases (Tree.get n d)) [
  | inl (sub, e) ↦ ground arith
  | inr (inl (q, e)) ↦ ground arith
  | inr (inr e) ↦ ground arith
]
placement-file (m ∷ ns) n r d h = elim (node-cases (Tree.get n d)) [
  | inl (sub, e) ↦ ground (arith, placement-file ns m r sub)
  | inr (inl (q, e)) ↦ ground arith
  | inr (inr e) ↦ ground arith
]

placement_at-file :
    (s : InMemoryStorage) (ns : List Bytes) (r : ℕ)
    → file_at ns s.root ≡ some r
    → placement_at s ns ≡ ok tt
placement_at-file s [] r h = ground (arith, file_at_nil s.root)
placement_at-file s (n ∷ ns) r h = placement-file ns n r s.root h

ok-status : {A : Type 0} (r : IoPathResult A) → status r ≡ ok tt → (a : A) × (r ≡ ok a)
ok-status (ok a) h = (a, refl)
ok-status (err e) h = cc

put-existing :
    (p c : Bytes) (s : InMemoryStorage)
    → content_of s p ≡ some c
    → status (InMemory.put p s).1 ≡ ok tt
put-existing p c s e = elim (Bool-cases (starts_with_slash p)) [
  | inl a ↦ elim (Option-cases (file_at (names p) s.root)) [
    | inl z ↦ ground arith
    | inr (r, z) ↦ rw (put-status, a) (placement_at-file s (names p) r z)
  ]
  | inr a ↦ ground arith
]

-- The storage in memory is a reliable storage: a `put` over a file succeeds, and so does every write
-- and `close`.
pub memory-IsReliable : IsReliable memory memory_view
unfolding Close.close
memory-IsReliable = record {
  put_existing = λ p c s g e. ok-status (InMemory.put p s).1 (put-existing p c s e);
  write_succeeds = λ w b s. refl;
  close_succeeds = λ w s. refl;
}
