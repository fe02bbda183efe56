-- ===== src/Cache/Local/Clean/Deleting.antt =====
-- The deletions of `LocalCache::clean` in local.rs as one sequence of paths.
use btdt.Prelude.{◌≡◌, refl, List, [], ◌∷◌, ◌++◌, map, Bytes, inl, inr}
use btdt.Io.{ok, err, IoPathResult, Result-cases}
use btdt.Storage.Interface.{Storage}
use btdt.Cache.Externals.{Externals}
use btdt.Cache.Local.{World, M, ◌>>◌, storing, meta_path, blob_path}
use btdt.Cache.Local.Clean.{delete_keys, delete_blob}
use btdt.Cache.Local.Clean.Gather.{Blob}

module _ (S : Storage) (X : Externals) where
  -- The paths are deleted from the storage one after the other, until one deletion fails.
  unfoldable pub delete_paths : List Bytes → S.State → S.State × IoPathResult (Unit {0})
  delete_paths [] s = (s, ok tt)
  delete_paths (p ∷ ps) s =
      let (s', r) = S.delete p s in elim r [ ok u ↦ delete_paths ps s' | err e ↦ (s', err e) ]

  -- The files of a blob: the metadata of its keys, and then its content.
  unfoldable pub paths_of : List (Blob S X) → List Bytes
  paths_of [] = []
  paths_of (b ∷ bs) = map (meta_path S X) b.keys ++ (blob_path S X b.blob_id ∷ paths_of bs)

  -- The files of one blob are deleted before the rest.
  delete_keys-paths :
      {B : Type 0} (keys : List Bytes) (q : Bytes) (ps : List Bytes) (rest n : M S X B)
      (w : World S X)
      → ((u : World S X) → rest u ≡ ◌>>◌ S X (storing S X (delete_paths ps)) n u)
      → ◌>>◌ S X (◌>>◌ S X (delete_keys S X keys) (storing S X (S.delete q))) rest w
        ≡ ◌>>◌ S X (storing S X (delete_paths (map (meta_path S X) keys ++ (q ∷ ps)))) n w
  unfolding delete_keys delete_paths
  delete_keys-paths [] q ps rest n w h = elim (Result-cases (S.delete q w.storage).1) [
    | inl (u, e) ↦ rw (delete_paths, e) (h _)
    | inr (x, e) ↦ rw (delete_paths, e) refl
  ]
  delete_keys-paths (k ∷ ks) q ps rest n w h =
      elim (Result-cases (S.delete (meta_path S X k) w.storage).1) [
        | inl (u, e) ↦ rw (delete_keys, delete_paths, e) (delete_keys-paths ks q ps rest n _ h)
        | inr (x, e) ↦ rw (delete_keys, delete_paths, e) refl
      ]

  pub delete_blob-paths :
      {B : Type 0} (b : Blob S X) (bs : List (Blob S X)) (rest n : M S X B) (w : World S X)
      → ((u : World S X) → rest u ≡ ◌>>◌ S X (storing S X (delete_paths (paths_of bs))) n u)
      → ◌>>◌ S X (delete_blob S X b) rest w
        ≡ ◌>>◌ S X (storing S X (delete_paths (paths_of (b ∷ bs)))) n w
  unfolding delete_blob paths_of
  delete_blob-paths b bs rest n w h =
      delete_keys-paths b.keys (blob_path S X b.blob_id) (paths_of bs) rest n w h
