-- ===== src/Cache/Local/Hit.antt =====
-- What `LocalCache::get` of local.rs returns for a key that is there.
use btdt.Prelude.{◌≡◌, refl, ◌∙◌, some, List, ◌∷◌, Bytes, length, arith, ap}
use btdt.Io.{ok}
use btdt.Storage.{FileHandle}
use btdt.Storage.Interface.{Storage, View, IsLawful}
use btdt.Cache.{CacheHit}
use btdt.Cache.Externals.{Externals, IsFaithful}
use btdt.Cache.Meta
use btdt.Cache.Meta.{
  Meta, IsCoherent, from_bytes-bytes, meta_max_size, latest_access-set_latest_access,
}
use btdt.Cache.Local.{World, M, Hit, touch, read_meta, blob_of, entry_of, get, meta_path, blob_path}
use btdt.Cache.Local.Steps.{bind-rule, touch-Touched}
use btdt.Cache.Local.Get.{take_all}

module _ (S : Storage) (X : Externals) (V : View S) (L : IsLawful S V) (F : IsFaithful X) where
  pub read_meta-stored :
      (p : Bytes) (m : Meta) (s : S.State)
      → V.Good s
      → IsCoherent X m
      → V.content s p ≡ some m.bytes
      → read_meta S X p s ≡ ok m
  unfolding read_meta
  read_meta-stored p m s g c e =
      let (h, found, hint, reads) = L.get_found p m.bytes s g e in
      rw (
        found,
        reads meta_max_size (omega (arith, c.size)),
        take_all meta_max_size m.bytes c.size,
        from_bytes-bytes X F m c,
      )

  -- An entry of the cache: a key with its meta and the blob that it names.
  pub record Entry (s : S.State) (key : Bytes) (m : Meta) (blob : Bytes) : Type 0 where
    pub coherent : IsCoherent X m
    pub meta_stored : V.content s (meta_path S X key) ≡ some m.bytes
    pub blob_stored : V.content s (blob_path S X (Meta.blob_id X m)) ≡ some blob
    pub apart : V.Apart (meta_path S X key) (blob_path S X (Meta.blob_id X m))

  -- A hit for the key: it is named, the hint is the storage's for the blob, the reader reads the blob, and the
  -- entry's file holds the meta with the time of the access.
  pub record IsHit (key : Bytes) (m : Meta) (blob : Bytes) (t : X.DateTime) (s : S.State)
      (r : Hit S X) : Type 0 where
    pub hit : CacheHit S.Reader
    pub is_some : r ≡ some hit
    pub key_eq : hit.key ≡ key
    pub hint : hit.size_hint ≡ some (V.hint blob)
    pub reads : S.read_exact hit.reader (length blob) s ≡ ok blob
    pub refreshed : V.content s (meta_path S X key) ≡ some (Meta.set_latest_access X t m).bytes

  found_hit :
      (key : Bytes) (m : Meta) (blob : Bytes) (t : X.DateTime) (u : World S X)
      (h : FileHandle S.Reader) (rest : M S X (Hit S X))
      → h.size_hint ≡ V.hint blob
      → S.read_exact h.reader (length blob) u.storage ≡ ok blob
      → V.content u.storage (meta_path S X key) ≡ some (Meta.set_latest_access X t m).bytes
      → (r : Hit S X) → (blob_of S X key rest (ok h) u).1 ≡ ok r
      → IsHit key m blob t (blob_of S X key rest (ok h) u).0.storage r
  unfolding blob_of
  found_hit key m blob t u h rest hint reads refreshed r e = record {
    hit = record { key = key; reader = h.reader; size_hint = some h.size_hint };
    is_some = cc;
    key_eq = refl;
    hint = ap some hint;
    reads = reads;
    refreshed = refreshed;
  }

  blob_of-hit :
      (key : Bytes) (m m' : Meta) (blob : Bytes) (t : X.DateTime) (u : World S X)
      (rest : M S X (Hit S X))
      → V.Good u.storage
      → m' ≡ Meta.set_latest_access X t m
      → V.content u.storage (blob_path S X (Meta.blob_id X m)) ≡ some blob
      → V.content u.storage (meta_path S X key) ≡ some m'.bytes
      → let result = blob_of S X key rest (S.get (blob_path S X (Meta.blob_id X m')) u.storage) u in
        (r : Hit S X) → result.1 ≡ ok r → IsHit key m blob t result.0.storage r
  blob_of-hit key m m' blob t u rest g q b c =
      let (h, found, hint, reads) =
        L.get_found (blob_path S X (Meta.blob_id X m)) blob u.storage g b in
      let same : Meta.blob_id X m' ≡ Meta.blob_id X m =
        ap (Meta.blob_id X) q ∙ (latest_access-set_latest_access X F t m).1 in
      rw (same, found)
        (found_hit key m blob t u h rest hint
          (reads (length blob) (omega arith) ∙ ap ok (take_all (length blob) blob refl))
          (c ∙ ap (λ (x : Meta). some x.bytes) q))

  -- If the first key has an entry, then `get` hits it, whatever the other keys are, unless an
  -- operation of the storage fails.
  pub get-hit :
      (key : Bytes) (keys : List Bytes) (m : Meta) (blob : Bytes) (w : World S X)
      → V.Good w.storage
      → Entry w.storage key m blob
      → (r : Hit S X) → (get S X (key ∷ keys) w).1 ≡ ok r
      → IsHit key m blob (X.time_at w.clock) (get S X (key ∷ keys) w).0.storage r
  unfolding get entry_of
  get-hit key keys m blob w g n =
      let path = meta_path S X key in
      let t = touch-Touched S X V L path m w g in
      rw (read_meta-stored path m w.storage g n.coherent n.meta_stored) (
        bind-rule S X (touch S X path m) _ w
          (λ u x. (r : Hit S X) → x ≡ ok r → IsHit key m blob (X.time_at w.clock) u.storage r)
          (λ m' e.
            let (q, c) = t.stored m' e in
            blob_of-hit key m m' blob (X.time_at w.clock) (touch S X path m w).0 (get S X keys)
              t.touches.good q (t.touches.content_eq _ n.apart ∙ n.blob_stored) c)
          (λ e _ r h. cc))
