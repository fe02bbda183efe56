-- ===== src/Cache/Local/RoundTrip.antt =====
-- What a client of local.rs stores is what it gets back.
use btdt.Prelude.{concat, ◌≡◌, List, [], ◌∷◌, ◌++◌, some, Bytes}
use btdt.Io.{ok}
use btdt.Storage.Interface.{Storage, View, IsLawful, Clear, Separate}
use btdt.Cache.Externals.{Externals, IsFaithful}
use btdt.Cache.Meta
use btdt.Cache.Meta.{Meta, new-IsCoherent}
use btdt.Cache.Local.{World, meta_path, blob_path, get, Hit}
use btdt.Cache.Local.Session.{store, store-Kept}
use btdt.Cache.Local.Set.{meta_paths, AllHold}
use btdt.Cache.Local.Hit.{IsHit, Entry, get-hit}

module _ (S : Storage) (X : Externals) (V : View S) (L : IsLawful S V) where
  AllHold-at :
      (pre post : List Bytes) (key b : Bytes) (s : S.State)
      → AllHold S X V L s b (meta_paths S X (pre ++ (key ∷ post)))
      → V.content s (meta_path S X key) ≡ some b
  AllHold-at [] post key b s h = h.0
  AllHold-at (k ∷ pre) post key b s h = AllHold-at pre post key b s h.1

  Clear-at :
      (pre post : List Bytes) (key p : Bytes)
      → Clear V (meta_paths S X (pre ++ (key ∷ post))) p
      → V.Apart (meta_path S X key) p
  Clear-at [] post key p h = h.0
  Clear-at (k ∷ pre) post key p h = Clear-at pre post key p h.1

  -- What a session leaves is an entry of each of its keys.
  pub stored-Entry :
      (F : IsFaithful X) (pre post bufs : List Bytes) (key : Bytes) (w : World S X)
      → V.Good w.storage
      → Separate V (blob_path S X (X.id_at w.rng) ∷ meta_paths S X (pre ++ (key ∷ post)))
      → (store S X (pre ++ (key ∷ post)) bufs w).1 ≡ ok tt
      → V.Good (store S X (pre ++ (key ∷ post)) bufs w).0.storage
        × Entry S X V L F
            (store S X (pre ++ (key ∷ post)) bufs w).0.storage
            key
            (Meta.new X (X.id_at w.rng) (X.time_at w.clock))
            (concat bufs)
  stored-Entry F pre post bufs key w g sep h =
      let m = Meta.new X (X.id_at w.rng) (X.time_at w.clock) in
      let k = store-Kept S X V L (pre ++ (key ∷ post)) bufs w g sep h in
      (
        k.good,
        record {
          coherent = new-IsCoherent X F (X.id_at w.rng) (X.time_at w.clock) (F.length-id_at w.rng);
          meta_stored = AllHold-at pre post key m.bytes _ k.metas;
          blob_stored = unfold Meta.new in k.blob_content;
          apart = unfold Meta.new in Clear-at pre post key _ sep.0;
        },
      )

  -- Over a lawful storage: if a session of `set`, writes and `close` for some keys has succeeded,
  -- with files that are different ones, then `get` for any of the keys first, where no operation of
  -- the storage fails, is a hit of that key whose reader reads all that was written, and whose entry
  -- holds the time of the access.
  pub get-store :
      (F : IsFaithful X) (pre post others bufs : List Bytes) (key : Bytes) (w : World S X)
      → V.Good w.storage
      → Separate V (blob_path S X (X.id_at w.rng) ∷ meta_paths S X (pre ++ (key ∷ post)))
      → (store S X (pre ++ (key ∷ post)) bufs w).1 ≡ ok tt
      → (r : Hit S X) → (get S X (key ∷ others) (store S X (pre ++ (key ∷ post)) bufs w).0).1 ≡ ok r
      → IsHit S X V L F key
          (Meta.new X (X.id_at w.rng) (X.time_at w.clock))
          (concat bufs)
          (X.time_at (store S X (pre ++ (key ∷ post)) bufs w).0.clock)
          (get S X (key ∷ others) (store S X (pre ++ (key ∷ post)) bufs w).0).0.storage
          r
  get-store F pre post others bufs key w g sep h r =
      let (good, n) = stored-Entry F pre post bufs key w g sep h in
      get-hit S X V L F key others _ (concat bufs) _ good n r
