-- ===== src/Storage/InMemory/Tree/Entries.antt =====
-- The entries of a directory of dir_node.rs under insertion and removal.
use btdt.Prelude.{◌≡◌, refl, none, some, Bytes, bytes_dec, ite, arith}
use btdt.Storage.InMemory.Tree.{Node, DirNode, end, entry, get, insert, remove}

pub get-insert :
    (k j : Bytes) (v : Node) (d : DirNode)
    → get j (insert k v d) ≡ ite (bytes_dec k j) (some v) (get j d)
unfolding get insert
get-insert k j v end = refl
get-insert k j v (entry n w d) = ground (arith, get-insert k j v d)

pub get-remove :
    (k j : Bytes) (d : DirNode) → get j (remove k d) ≡ ite (bytes_dec k j) none (get j d)
unfolding get remove
get-remove k j end = ground arith
get-remove k j (entry n w d) = ground (arith, get-remove k j d)

-- Writing back what is there changes nothing.
pub insert_same : (k : Bytes) (v : Node) (d : DirNode) → get k d ≡ some v → insert k v d ≡ d
unfolding get insert
insert_same k v end h = ground arith
insert_same k v (entry n w d) h = ground (arith, insert_same k v d)
