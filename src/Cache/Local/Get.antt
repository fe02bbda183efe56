-- ===== src/Cache/Local/Get.antt =====
-- What `LocalCache::get` of local.rs returns, and what it changes.
use btdt.Prelude.{ℕ, zero, suc, ◌≡◌, refl, ◌∙◌, List, [], ◌∷◌, Bytes, length, take, arith, ap}
use btdt.Io.{ok, err, IoPathResult, IoPathError, not_found, ErrorKind}
use btdt.Storage.{FileHandle}
use btdt.Storage.Interface.{Storage, View, IsLawful}
use btdt.Cache.Externals.{Externals}
use btdt.Cache.Meta.{Meta}
use btdt.Cache.Local.{World, M, Hit, touch, read_meta, blob_of, entry_of, get, meta_path, retry}
use btdt.Cache.Local.Steps.{bind-rule, touch-Touched}

pub take_all {ℓ} : {A : Type ℓ} (n : ℕ) (xs : List A) → length xs ≡ n → take n xs ≡ xs
take_all zero [] h = refl
take_all zero (x ∷ xs) h = absurd (omega arith)
take_all (suc n) [] h = refl
take_all (suc n) (x ∷ xs) h = ap (λ r. x ∷ r) (take_all n xs (omega arith))

module _ (S : Storage) (X : Externals) (V : View S) (L : IsLawful S V) where
  retry_not_found :
      (e : IoPathError) (k : ErrorKind) (rest : M S X (Hit S X)) (w : World S X)
      → k ≡ not_found
      → retry S X e k rest w ≡ rest w
  retry_not_found e not_found rest w h = refl
  retry_not_found e _ rest w h = cc

  read_meta-absent :
      (p : Bytes) (s : S.State)
      → V.Absent s p
      → (e : IoPathError) × (read_meta S X p s ≡ err e) × (e.error.kind ≡ not_found)
  unfolding read_meta
  read_meta-absent p s a = let (e, g, k) = L.get_absent p s a in (e, rw g, k)

  -- Over a lawful storage, a key with nothing at its metadata's path is passed over, and nothing is
  -- changed for it.
  pub get-absent :
      (key : Bytes) (keys : List Bytes) (w : World S X)
      → V.Absent w.storage (meta_path S X key)
      → get S X (key ∷ keys) w ≡ get S X keys w
  unfolding get entry_of
  get-absent key keys w a =
      let (e, g, k) = read_meta-absent (meta_path S X key) w.storage a in
      rw g (retry_not_found e e.error.kind (get S X keys) w k)

  -- `get` changes no file but the entries of its keys, whether it hits, misses or fails.
  abbrev pub AllApart : List Bytes → Bytes → Type 0
  AllApart [] p = Unit
  AllApart (key ∷ keys) p = V.Apart (meta_path S X key) p × AllApart keys p

  abbrev Same : Bytes → World S X → World S X → Type 0
  Same p w w' = V.Good w'.storage × (V.content w'.storage p ≡ V.content w.storage p)

  retry-Same :
      (p : Bytes) (e : IoPathError) (k : ErrorKind) (rest : M S X (Hit S X)) (w u : World S X)
      → Same p w u
      → Same p w (rest u).0
      → Same p w (retry S X e k rest u).0
  retry-Same p e not_found rest w u a b = b
  retry-Same p e _ rest w u a b = a

  blob_of-Same :
      (p key : Bytes) (rest : M S X (Hit S X)) (r : IoPathResult (FileHandle S.Reader))
      (w u : World S X)
      → Same p w u
      → Same p w (rest u).0
      → Same p w (blob_of S X key rest r u).0
  unfolding blob_of
  blob_of-Same p key rest (ok h) w u a b = a
  blob_of-Same p key rest (err e) w u a b = retry-Same p e e.error.kind rest w u a b

  entry_of-Same :
      (p key : Bytes) (rest : M S X (Hit S X)) (r : IoPathResult Meta) (w : World S X)
      → V.Good w.storage
      → V.Apart (meta_path S X key) p
      → ((u : World S X) → Same p w u → Same p w (rest u).0)
      → Same p w (entry_of S X key rest r w).0
  unfolding entry_of
  entry_of-Same p key rest (err e) w g a k =
      retry-Same p e e.error.kind rest w w (g, refl) (k w (g, refl))
  entry_of-Same p key rest (ok m) w g a k =
      let path = meta_path S X key in
      let t = (touch-Touched S X V L path m w g).touches in
      let same : Same p w (touch S X path m w).0 = (t.good, t.content_eq p a) in
      bind-rule S X (touch S X path m) _ w (λ u r. Same p w u)
        (λ m' e. blob_of-Same p key rest _ w _ same (k _ same)) (λ e _. same)

  -- Over a lawful storage in a good state, `get` changes no file but those of its keys' metadata, on
  -- every branch, and leaves the state good.
  pub get-content :
      (keys : List Bytes) (p : Bytes) (w : World S X)
      → V.Good w.storage
      → AllApart keys p
      → V.Good (get S X keys w).0.storage
        × (V.content (get S X keys w).0.storage p ≡ V.content w.storage p)
  unfolding get
  get-content [] p w g a = (g, refl)
  get-content (key ∷ keys) p w g (a, more) =
      entry_of-Same p key (get S X keys) _ w g a
        λ u same. let (g', e) = get-content keys p u same.0 more in (g', e ∙ same.1)
