-- ===== src/Cache/Local/Steps.antt =====
-- How the steps of local.rs are reasoned about, and what touching an entry does.
use btdt.Prelude.{◌≡◌, refl, Option, some, [], Bytes, arith}
use btdt.Io.{IoResult, with_path, ok, err, IoPathResult, IoPathError}
use btdt.Storage.Interface.{Storage, View, Touches, IsLawful, Touches-trans}
use btdt.Cache.Externals.{Externals}
use btdt.Cache.Meta
use btdt.Cache.Meta.{Meta}
use btdt.Cache.Local.{World, M, continue, ◌>>=◌, touch, storing, io_at, now}

module _ (S : Storage) (X : Externals) where
  -- A property of what a block leaves is shown for each outcome of its first step.
  pub bind-rule :
      {A B : Type 0} (m : M S X A) (f : A → M S X B) (w : World S X)
      (R : World S X → IoPathResult B → Type 0)
      → ((a : A) → (m w).1 ≡ ok a → R (f a (m w).0).0 (f a (m w).0).1)
      → ((e : IoPathError) → (m w).1 ≡ err e → R (m w).0 (err e))
      → R (◌>>=◌ S X m f w).0 (◌>>=◌ S X m f w).1
  bind-rule {A} {B} m f w R good bad = go (m w).1 good bad
    where
      go :
          (r : IoPathResult A)
          → ((a : A) → r ≡ ok a → R (f a (m w).0).0 (f a (m w).0).1)
          → ((e : IoPathError) → r ≡ err e → R (m w).0 (err e))
          → R (continue S X r f (m w).0).0 (continue S X r f (m w).0).1
      go (ok a) good bad = good a refl
      go (err e) good bad = bad e refl

pub with_path-ok :
    (r : IoResult (Unit {0})) (p : Bytes) (u : Unit {0}) → with_path r p ≡ ok u → r ≡ ok tt
with_path-ok (ok u) p v h = refl
with_path-ok (err e) p v h = cc

same_meta :
    (m m' : Meta) (c : Option Bytes)
    → ◌≡◌ {A = IoPathResult Meta} (ok m) (ok m')
    → c ≡ some m.bytes
    → (m' ≡ m) × (c ≡ some m'.bytes)
same_meta m m' c h e = ground arith

module _ (S : Storage) (X : Externals) (V : View S) (L : IsLawful S V) where
  -- What storing an access time leaves: only the entry's file is touched, and if nothing failed, it
  -- holds the meta with the new time.
  pub record Touched (path : Bytes) (m : Meta) (w w' : World S X) (r : IoPathResult Meta)
      : Type 0 where
    pub touches : Touches V path w.storage w'.storage
    pub stored :
        (m' : Meta)
        → r ≡ ok m'
        → (m' ≡ Meta.set_latest_access X (X.time_at w.clock) m)
          × (V.content w'.storage path ≡ some m'.bytes)

  stopped :
      (path : Bytes) (m : Meta) (w w' : World S X) (e : IoPathError)
      → Touches V path w.storage w'.storage
      → Touched path m w w' (err e)
  stopped path m w w' e t = record { touches = t; stored = λ m' h. cc }

  pub touch-Touched :
      (path : Bytes) (m : Meta) (w : World S X)
      → V.Good w.storage
      → Touched path m w (touch S X path m w).0 (touch S X path m w).1
  unfolding touch now
  touch-Touched path m w g =
      let b : Bytes = (Meta.set_latest_access X (X.time_at w.clock) m).bytes in
      bind-rule S X (storing S X (S.put path)) _ _ (Touched path m w)
        (λ v e.
          let s = (S.put path w.storage).0 in
          let t = L.put_touches path w.storage g in
          let o = L.put_owns path w.storage v g e in
          let t2 = Touches-trans t (L.write_touches path [] b s v t.good o) in
          bind-rule S X (storing S X (io_at S X path (S.write_all v b))) _ _ (Touched path m w)
            (λ u e2.
              let s2 = (S.write_all v b s).0 in
              let o2 = L.write_owns path [] b s v t.good o (with_path-ok _ path u e2) in
              let t3 = Touches-trans t2 (L.close_touches path b s2 v t2.good o2) in
              bind-rule S X (storing S X (io_at S X path (S.close v))) _ _ (Touched path m w)
                (λ u3 e3. record {
                  touches = t3;
                  stored = λ m' h.
                      same_meta _ m' _ h
                        (L.close_content path b s2 v t2.good o2 (with_path-ok _ path u3 e3));
                })
                (λ x _. stopped path m w _ x t3))
            (λ x _. stopped path m w _ x t2))
        (λ x _. stopped path m w _ x (L.put_touches path w.storage g))
