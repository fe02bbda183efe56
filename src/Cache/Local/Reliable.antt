-- ===== src/Cache/Local/Reliable.antt =====
-- What `LocalCache::get` of local.rs returns where the storage can always write a file again.
use btdt.Prelude.{concat, ◌≡◌, refl, ◌∙◌, some, List, ◌∷◌, ◌++◌, Bytes}
use btdt.Io.{ok}
use btdt.Storage.Interface.{Storage, View, IsLawful, IsReliable, Separate}
use btdt.Cache.Externals.{Externals, IsFaithful}
use btdt.Cache.Meta
use btdt.Cache.Meta.{Meta, latest_access-set_latest_access}
use btdt.Cache.Local.{World, Hit, touch, now, get, entry_of, blob_of, meta_path, blob_path}
use btdt.Cache.Local.Steps.{touch-Touched}
use btdt.Cache.Local.Hit.{IsHit, Entry, read_meta-stored, get-hit}
use btdt.Cache.Local.RoundTrip.{stored-Entry}
use btdt.Cache.Local.Session.{store}
use btdt.Cache.Local.Set.{meta_paths}

module _ (S : Storage) (X : Externals) (V : View S) (L : IsLawful S V) (R : IsReliable S V)
    (F : IsFaithful X) where
  touch-ok :
      (path : Bytes) (m : Meta) (c : Bytes) (w : World S X)
      → V.Good w.storage
      → V.content w.storage path ≡ some c
      → (touch S X path m w).1 ≡ ok (Meta.set_latest_access X (X.time_at w.clock) m)
  unfolding touch now
  touch-ok path m c w g e =
      let (v, h) = R.put_existing path c w.storage g e in
      rw (h, R.write_succeeds v _ _, R.close_succeeds v _) refl

  get-ok :
      (key : Bytes) (keys : List Bytes) (m : Meta) (blob : Bytes) (w : World S X)
      → V.Good w.storage
      → Entry S X V L F w.storage key m blob
      → (r : Hit S X) × ((get S X (key ∷ keys) w).1 ≡ ok r)
  unfolding get entry_of
  get-ok key keys m blob w g n =
      let path = meta_path S X key in
      let t = touch-Touched S X V L path m w g in
      let e = touch-ok path m m.bytes w g n.meta_stored in
      rw (read_meta-stored S X V L F path m w.storage g n.coherent n.meta_stored, e)
        (let same : Meta.blob_id X (Meta.set_latest_access X (X.time_at w.clock) m)
              ≡ Meta.blob_id X m =
            (latest_access-set_latest_access X F (X.time_at w.clock) m).1 in
          let (h, found, _, _) =
            L.get_found (blob_path S X (Meta.blob_id X m)) blob (touch S X path m w).0.storage
              t.touches.good (t.touches.content_eq _ n.apart ∙ n.blob_stored) in
          rw (same, found) (unfold blob_of in (_, refl)))

  -- Over a lawful storage that can always write a file again: if a session of `set`, writes and
  -- `close` for some keys has succeeded, with files that are different ones, then `get` for any of the
  -- keys first returns a hit of that key, whose reader reads all that was written, and its entry holds
  -- the time of the access.
  pub get-store_reliable :
      (pre post others bufs : List Bytes) (key : Bytes) (w : World S X)
      → V.Good w.storage
      → Separate V (blob_path S X (X.id_at w.rng) ∷ meta_paths S X (pre ++ (key ∷ post)))
      → (store S X (pre ++ (key ∷ post)) bufs w).1 ≡ ok tt
      → (r : Hit S X) × ((get S X (key ∷ others) (store S X (pre ++ (key ∷ post)) bufs w).0).1
          ≡ ok r)
        × IsHit S X V L F key
            (Meta.new X (X.id_at w.rng) (X.time_at w.clock))
            (concat bufs)
            (X.time_at (store S X (pre ++ (key ∷ post)) bufs w).0.clock)
            (get S X (key ∷ others) (store S X (pre ++ (key ∷ post)) bufs w).0).0.storage
            r
  get-store_reliable pre post others bufs key w g sep h =
      let w1 = (store S X (pre ++ (key ∷ post)) bufs w).0 in
      let (good, n) = stored-Entry S X V L F pre post bufs key w g sep h in
      let (r, e) = get-ok key others _ (concat bufs) w1 good n in
      (r, e, get-hit S X V L F key others _ (concat bufs) w1 good n r e)
