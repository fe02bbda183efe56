-- ===== src/Cache/Local/Session.antt =====
-- What a client of local.rs stores is what it gets back: `set`, writes, `close`, and then `get`.
use mathlib.Core.List.{append-nil, append_assoc}
use mathlib.Core.Path.{subst}
use btdt.Prelude.{concat, ◌+◌, ◌≡◌, refl, ◌∙◌, List, [], ◌∷◌, ◌++◌, some, Bytes}
use btdt.Io.{ok-subst, ok, err, IoPathResult, IoResult, no_path}
use btdt.Storage.Interface.{
  Storage, View, Touches, IsLawful, Touches-trans, Touches-refl, Clear, Separate, OwnsAll,
  TouchesAll, TouchesAll-cons, TouchesAll-then, TouchesAll-stop, OwnsAll-Touches,
}
use btdt.Cache.Externals.{Externals}
use btdt.Cache.Meta
use btdt.Cache.Meta.{Meta, new-IsCoherent}
use btdt.Cache.Local.{
  World, M, CacheWriter, ◌>>=◌, storing, put_metas, set, write, then_io, close_metas, close,
  blob_path, now, new_id,
}
use btdt.Cache.Local.Steps.{bind-rule}
use btdt.Cache.Local.Set.{meta_paths, then-rule, put_metas-Opened, AllHold, close_metas-Closed}

module _ (S : Storage) (X : Externals) where
  unfoldable pub write_blob : CacheWriter S X → List Bytes → S.State → S.State × IoResult (Unit {0})
  write_blob c [] s = (s, ok tt)
  write_blob c (b ∷ bs) s = let rest = write_blob c bs in then_io S X (write S X c b s) rest

  unfoldable pub finish : List Bytes → CacheWriter S X → S.State → S.State × IoPathResult (Unit {0})
  finish bufs c s = let (s', r) = then_io S X (write_blob c bufs s) (close S X c) in (s', no_path r)

  -- A client that stores the buffers under the keys.
  unfoldable pub store : List Bytes → List Bytes → M S X (Unit {0})
  store keys bufs = ◌>>=◌ S X (set S X keys) λ c. storing S X (finish bufs c)

module _ (S : Storage) (X : Externals) (V : View S) (L : IsLawful S V) where
  record Prepared (keys : List Bytes) (w w' : World S X) (r : IoPathResult (CacheWriter S X))
      : Type 0 where
    touches :
        TouchesAll V (blob_path S X (X.id_at w.rng) ∷ meta_paths S X keys) w.storage w'.storage
    ready :
        (c : CacheWriter S X)
        → r ≡ ok c
        → V.Owns w'.storage c.blob_writer (blob_path S X (X.id_at w.rng)) []
          × OwnsAll V w'.storage c.meta_writers (meta_paths S X keys)
          × (c.meta ≡ Meta.new X (X.id_at w.rng) (X.time_at w.clock))

  set-Prepared :
      (keys : List Bytes) (w : World S X)
      → V.Good w.storage
      → Separate V (blob_path S X (X.id_at w.rng) ∷ meta_paths S X keys)
      → Prepared keys w (set S X keys w).0 (set S X keys w).1
  unfolding set new_id now
  set-Prepared keys w g c =
      let path = blob_path S X (X.id_at w.rng) in
      let w0 : World S X = record { storage = w.storage; clock = w.clock + 1; rng = w.rng + 1 } in
      let t = L.put_touches path w.storage g in
      bind-rule S X (storing S X (S.put path)) _ w0 (Prepared keys w)
        (λ v e.
          let w1 : World S X = record w0 { storage = (S.put path w.storage).0 } in
          let rest = put_metas-Opened S X V L keys w1 t.good c.1 in
          let all = TouchesAll-cons V t rest.touches in
          let own = rest.touches.owns v path [] c.0 (L.put_owns path w.storage v g e) in
          bind-rule S X (put_metas S X keys) _ w1 (Prepared keys w)
            (λ ws e2. record {
              touches = all;
              ready = λ x h.
                  ok-subst
                    (λ (x : CacheWriter S X).
                      V.Owns (put_metas S X keys w1).0.storage x.blob_writer path []
                      × OwnsAll V (put_metas S X keys w1).0.storage x.meta_writers
                          (meta_paths S X keys)
                      × (x.meta ≡ Meta.new X (X.id_at w.rng) (X.time_at w.clock)))
                    h (own, rest.owned ws e2, refl);
            })
            (λ e _. record { touches = all; ready = λ x h. cc }))
        (λ e _. record { touches = TouchesAll-stop V (meta_paths S X keys) t; ready = λ x h. cc })

  record Written (c : CacheWriter S X) (p b : Bytes) (s s' : S.State) (r : IoResult (Unit {0}))
      : Type 0 where
    touches : Touches V p s s'
    owned : r ≡ ok tt → V.Owns s' c.blob_writer p b

  write_blob-Written :
      (c : CacheWriter S X) (p acc : Bytes) (bufs : List Bytes) (s : S.State)
      → V.Good s
      → V.Owns s c.blob_writer p acc
      → Written c p (acc ++ concat bufs) s (write_blob S X c bufs s).0 (write_blob S X c bufs s).1
  unfolding write_blob write
  write_blob-Written c p acc [] s g o =
      rw append-nil (record { touches = Touches-refl p s g; owned = λ h. o })
  write_blob-Written c p acc (b ∷ bufs) s g o =
      let t = L.write_touches p acc b s c.blob_writer g o in
      then-rule S X (S.write_all c.blob_writer b s) _ (Written c p (acc ++ (b ++ concat bufs)) s)
        (λ e.
          let s1 = (S.write_all c.blob_writer b s).0 in
          let rest =
            write_blob-Written c p (acc ++ b) bufs s1 t.good
              (L.write_owns p acc b s c.blob_writer g o e) in
          record {
            touches = Touches-trans t rest.touches;
            owned = λ h. rw append_assoc at (rest.owned h);
          })
        (λ x _. record { touches = t; owned = λ h. cc })

  -- What a completed session leaves: the blob, the entries' metas, and no change of other files.
  pub record Kept (keys : List Bytes) (blob : Bytes) (w : World S X) (s : S.State) : Type 0 where
    pub good : V.Good s
    pub blob_content : V.content s (blob_path S X (X.id_at w.rng)) ≡ some blob
    pub metas :
        AllHold S X V L s
          (Meta.new X (X.id_at w.rng) (X.time_at w.clock)).bytes
          (meta_paths S X keys)
    pub others :
        (q : Bytes)
        → Clear V (blob_path S X (X.id_at w.rng) ∷ meta_paths S X keys) q
        → V.content s q ≡ V.content w.storage q

  close-Kept :
      (keys : List Bytes) (blob : Bytes) (w : World S X) (c : CacheWriter S X) (s : S.State)
      → Separate V (blob_path S X (X.id_at w.rng) ∷ meta_paths S X keys)
      → TouchesAll V (blob_path S X (X.id_at w.rng) ∷ meta_paths S X keys) w.storage s
      → V.Owns s c.blob_writer (blob_path S X (X.id_at w.rng)) blob
      → OwnsAll V s c.meta_writers (meta_paths S X keys)
      → c.meta ≡ Meta.new X (X.id_at w.rng) (X.time_at w.clock)
      → (close S X c s).1 ≡ ok tt
      → Kept keys blob w (close S X c s).0
  unfolding close
  close-Kept keys blob w c s sep t own owns m =
      let p = blob_path S X (X.id_at w.rng) in
      let ps = meta_paths S X keys in
      let t2 = L.close_touches p blob s c.blob_writer t.good own in
      then-rule S X (S.close c.blob_writer s) _ (λ s' r. r ≡ ok tt → Kept keys blob w s')
        (λ e h.
          let s1 = (S.close c.blob_writer s).0 in
          let rest =
            close_metas-Closed S X V L ps c.meta_writers c.meta.bytes s1 t2.good sep.1
              (OwnsAll-Touches V ps c.meta_writers L.apart_sym t2 sep.0 owns) in
          record {
            good = rest.touches.good;
            blob_content =
                rest.touches.content_eq p sep.0
                ∙ L.close_content p blob s c.blob_writer t.good own e;
            metas =
                subst
                  (λ (x : Meta).
                    AllHold S X V L (close_metas S X c.meta_writers c.meta.bytes s1).0 x.bytes ps)
                  m (rest.holds h);
            others =
                λ q cl. rest.touches.content_eq q cl.1 ∙ t2.content_eq q cl.0 ∙ t.content_eq q cl;
          })
        (λ x _ h. cc)

  no_path-ok : (r : IoResult (Unit {0})) → no_path r ≡ ok tt → r ≡ ok tt
  no_path-ok (ok u) h = refl
  no_path-ok (err e) h = cc

  finish-Kept :
      (keys bufs : List Bytes) (w : World S X) (c : CacheWriter S X) (s : S.State)
      → Separate V (blob_path S X (X.id_at w.rng) ∷ meta_paths S X keys)
      → TouchesAll V (blob_path S X (X.id_at w.rng) ∷ meta_paths S X keys) w.storage s
      → V.Owns s c.blob_writer (blob_path S X (X.id_at w.rng)) []
        × OwnsAll V s c.meta_writers (meta_paths S X keys)
        × (c.meta ≡ Meta.new X (X.id_at w.rng) (X.time_at w.clock))
      → (finish S X bufs c s).1 ≡ ok tt
      → Kept keys (concat bufs) w (finish S X bufs c s).0
  unfolding finish
  finish-Kept keys bufs w c s sep t (own, owns, m) h =
      let p = blob_path S X (X.id_at w.rng) in
      let b = write_blob-Written c p [] bufs s t.good own in
      then-rule S X (write_blob S X c bufs s) (close S X c)
        (λ s' r. r ≡ ok tt → Kept keys (concat bufs) w s')
        (λ e.
          close-Kept keys (concat bufs) w c (write_blob S X c bufs s).0 sep
            (TouchesAll-then V t b.touches) (b.owned e)
            (OwnsAll-Touches V (meta_paths S X keys) c.meta_writers L.apart_sym b.touches sep.0
              owns)
            m)
        (λ x _ h. cc) (no_path-ok (then_io S X (write_blob S X c bufs s) (close S X c)).1 h)

  -- Over a lawful storage in a good state: if a session of `set`, writes and `close` succeeds, with
  -- files that are different ones, then the blob's file holds all that was written, every key's file
  -- holds the metadata of the blob, and no other file has changed.
  pub store-Kept :
      (keys bufs : List Bytes) (w : World S X)
      → V.Good w.storage
      → Separate V (blob_path S X (X.id_at w.rng) ∷ meta_paths S X keys)
      → (store S X keys bufs w).1 ≡ ok tt
      → Kept keys (concat bufs) w (store S X keys bufs w).0.storage
  unfolding store
  store-Kept keys bufs w g sep =
      let t = set-Prepared keys w g sep in
      bind-rule S X (set S X keys) _ w (λ u r. r ≡ ok tt → Kept keys (concat bufs) w u.storage)
        (λ c e. finish-Kept keys bufs w c (set S X keys w).0.storage sep t.touches (t.ready c e))
        (λ e _ h. cc)
