-- ===== src/Storage/Filesystem/Cleaned.antt =====
-- What `clean_leftover_tmp_files` of storage/filesystem/staged_file.rs keeps.
use btdt.Prelude.{
  ℕ, suc, ◌≡◌, ◌≢◌, refl, ◌∙◌, ap, true, false, some, [], ◌∷◌, arith, Bytes, inl, inr,
}
use btdt.Io.{Result-cases, err, IoResult}
use btdt.Storage.Filesystem.Paths.{PathBuf}
use btdt.Storage.Filesystem.Staged.{Locking}
use btdt.Storage.Filesystem.Disk.{
  DiskState, Node, directory, special, regular, node_at, resolve, error,
}
use btdt.Storage.Filesystem.Disk.Names.{Location, remove}
use btdt.Storage.Filesystem.Disk.Changes.{same_nodes, removed_other}
use btdt.Storage.Filesystem.Leftovers.{clean_file, clean_leftover_tmp_files, depth, is_tmp_name}
use btdt.Storage.Filesystem.Cleaning.{
  AllShort, AllShort-remove, depth-AllShort, Survives, clean_dir-Ends, clean_file-nodes,
}

-- A place that the cleaning leaves alone: a directory, or anything without a temporary name.
abbrev pub IsSpared : Location → Node → Type 0
IsSpared l directory = Unit
IsSpared [] n = Unit
IsSpared (name ∷ l) n = is_tmp_name name ≡ false

spared_ne :
    (name : Bytes) (l m : Location) (d : DiskState) (x : Node)
    → is_tmp_name name ≡ true
    → node_at d (name ∷ l) ≢ some directory
    → node_at d m ≡ some x
    → IsSpared m x
    → name ∷ l ≢ m
spared_ne name l [] d x a g h s e = absurd (ground arith)
spared_ne name l (j ∷ m) d directory a g h s e = g (ap (node_at d) e ∙ h)
spared_ne name l (j ∷ m) d special a g h s e =
    let f : name ≡ j = ground arith in ground (arith, ap is_tmp_name f)
spared_ne name l (j ∷ m) d (regular i) a g h s e =
    let f : name ≡ j = ground arith in ground (arith, ap is_tmp_name f)

spared-Survives :
    (K : Locking) (b : ℕ) (m : Location) (x : Node)
    → IsSpared m x
    → Survives K (λ d. AllShort b d.nodes × (node_at d m ≡ some x))
spared-Survives K b m x s name l i d t (short, h) =
    let e = (clean_file K (name ∷ l) i d).0 in
    elim (clean_file-nodes K (name ∷ l) i d) [
      | inl a ↦ (rw a short, same_nodes d e m a ∙ h)
      | inr (a, g) ↦
          let ne = spared_ne name l m d x t g h s in
          (
            rw a (AllShort-remove b (name ∷ l) d.nodes short),
            same_nodes (record d { nodes = remove (name ∷ l) d.nodes }) e m a
                ∙ removed_other d (name ∷ l) m g ne
                ∙ h,
          )
    ]

-- The cleaning of leftover files ends, and a directory that was there, or anything else whose name is not
-- that of a temporary file, is still there then.
pub clean_leftover_tmp_files-kept :
    (K : Locking) (p : PathBuf) (d : DiskState) (m : Location) (x : Node)
    → node_at d m ≡ some x
    → IsSpared m x
    → (e : DiskState) × (r : IoResult (Unit {0})) × (clean_leftover_tmp_files K p d ≡ some (e, r))
      × (node_at e m ≡ some x)
unfolding clean_leftover_tmp_files
clean_leftover_tmp_files-kept K p d m x h s = elim (Result-cases (resolve d p)) [
  | inr (y, a) ↦ rw (clean_leftover_tmp_files, a) (d, err (error y), refl, h)
  | inl (l, a) ↦
      let b = depth d.nodes in
      let (e, r, f, q) =
        clean_dir-Ends K (λ f. AllShort b f.nodes × (node_at f m ≡ some x))
          (spared-Survives K b m x s) (suc b) b l d (λ f q. q.0) (omega arith) (omega arith)
          (depth-AllShort d.nodes, h) in
      rw (clean_leftover_tmp_files, a) (e, r, f, q.1)
]
