-- ===== src/Cache/Local/Clean/Heap.antt =====
-- cache/local.rs: the `BinaryHeap` of `LocalCache::clean`, as the list of its items.
use btdt.Prelude.{Bool, true, false, List, [], ◌∷◌, if◌then◌else◌}
use btdt.Storage.Interface.{Storage}
use btdt.Cache.Externals.{Externals}
use btdt.Cache.Local.Clean.Gather.{Blob}
use btdt.Cache.Local.Clean.Order.{
  Ordering, less, equal, greater, then_by, compare_nat, compare_bytes, compare_keys,
}

module _ (S : Storage) (X : Externals) where
  open X use {DateTime}

  -- `Ord` of `Blob`, as it is derived: the reversed access time first.
  unfoldable pub compare_access : DateTime → DateTime → Ordering
  compare_access a b = if X.at_least a b then (if X.at_least b a then equal else less) else greater

  unfoldable pub compare : Blob S X → Blob S X → Ordering
  unfolding compare_access
  compare a b = then_by (compare_access a.latest_access b.latest_access) (
      then_by (compare_nat a.size b.size)
        (then_by (compare_bytes a.blob_id b.blob_id) (compare_keys a.keys b.keys)))

  abbrev pub is_greater : Ordering → Bool
  is_greater greater = true
  is_greater equal = false
  is_greater less = false

  -- `BinaryHeap::pop` of a heap that is not empty: its greatest item, and the others
  unfoldable pub pop : Blob S X → List (Blob S X) → Blob S X × List (Blob S X)
  unfolding compare
  pop b [] = (b, [])
  pop b (c ∷ cs) =
      let (m, rest) = pop c cs in if is_greater (compare m b) then (m, b ∷ rest) else (b, m ∷ rest)
