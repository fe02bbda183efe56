-- ===== src/Cache/Local/Set.antt =====
-- What `LocalCache::set` and `CacheWriter` of local.rs leave in the storage.
use btdt.Prelude.{◌≡◌, refl, ◌∙◌, List, [], ◌∷◌, some, Bytes}
use btdt.Io.{ok-subst, ok, err, IoPathResult, IoResult, IoError}
use btdt.Storage.Interface.{
  Storage, View, IsLawful, Touches-trans, Separate, OwnsAll, TouchesAll, TouchesAll-nil,
  TouchesAll-cons, TouchesAll-stop, OwnsAll-Touches,
}
use btdt.Cache.Externals.{Externals}
use btdt.Cache.Local.{World, storing, put_metas, then_io, close_metas, meta_path}
use btdt.Cache.Local.Steps.{bind-rule}

module _ (S : Storage) (X : Externals) where
  abbrev pub meta_paths : List Bytes → List Bytes
  meta_paths [] = []
  meta_paths (key ∷ keys) = meta_path S X key ∷ meta_paths keys

  pub then-rule :
      {A : Type 0} (r : S.State × IoResult (Unit {0})) (k : S.State → S.State × IoResult A)
      (R : S.State → IoResult A → Type 0)
      → (r.1 ≡ ok tt → R (k r.0).0 (k r.0).1)
      → ((e : IoError) → r.1 ≡ err e → R r.0 (err e))
      → R (then_io S X r k).0 (then_io S X r k).1
  then-rule (s, ok u) k R good bad = good refl
  then-rule (s, err e) k R good bad = bad e refl

module _ (S : Storage) (X : Externals) (V : View S) (L : IsLawful S V) where
  -- What opening the metas' writers leaves.
  pub record Opened (keys : List Bytes) (w w' : World S X) (r : IoPathResult (List S.Writer))
      : Type 0 where
    pub touches : TouchesAll V (meta_paths S X keys) w.storage w'.storage
    pub owned : (ws : List S.Writer) → r ≡ ok ws → OwnsAll V w'.storage ws (meta_paths S X keys)

  pub put_metas-Opened :
      (keys : List Bytes) (w : World S X)
      → V.Good w.storage
      → Separate V (meta_paths S X keys)
      → Opened keys w (put_metas S X keys w).0 (put_metas S X keys w).1
  unfolding put_metas
  put_metas-Opened [] w g c = record {
    touches = TouchesAll-nil V w.storage g;
    owned = λ ws h. ok-subst (λ x. OwnsAll V w.storage x []) h tt;
  }
  put_metas-Opened (key ∷ keys) w g c =
      let path = meta_path S X key in
      let t = L.put_touches path w.storage g in
      bind-rule S X (storing S X (S.put path)) _ w (Opened (key ∷ keys) w)
        (λ v e.
          let w1 : World S X = record w { storage = (S.put path w.storage).0 } in
          let rest = put_metas-Opened keys w1 t.good c.1 in
          let all = TouchesAll-cons V t rest.touches in
          let own = rest.touches.owns v path [] c.0 (L.put_owns path w.storage v g e) in
          bind-rule S X (put_metas S X keys) _ w1 (Opened (key ∷ keys) w)
            (λ ws e2. record {
              touches = all;
              owned = λ x h.
                  ok-subst
                    (λ y.
                      OwnsAll V (put_metas S X keys w1).0.storage y (path ∷ meta_paths S X keys))
                    h (own, rest.owned ws e2);
            })
            (λ e _. record { touches = all; owned = λ ws h. cc }))
        (λ e _. record { touches = TouchesAll-stop V (meta_paths S X keys) t; owned = λ ws h. cc })

  -- Every path of the list holds the bytes.
  abbrev pub AllHold : S.State → Bytes → List Bytes → Type 0
  AllHold s b [] = Unit
  AllHold s b (p ∷ ps) = (V.content s p ≡ some b) × AllHold s b ps

  pub record Closed (ps : List Bytes) (b : Bytes) (s s' : S.State) (r : IoResult (Unit {0}))
      : Type 0 where
    pub touches : TouchesAll V ps s s'
    pub holds : r ≡ ok tt → AllHold s' b ps

  pub close_metas-Closed :
      (ps : List Bytes) (ws : List S.Writer) (b : Bytes) (s : S.State)
      → V.Good s
      → Separate V ps
      → OwnsAll V s ws ps
      → Closed ps b s (close_metas S X ws b s).0 (close_metas S X ws b s).1
  unfolding close_metas
  close_metas-Closed [] [] b s g c o = record { touches = TouchesAll-nil V s g; holds = λ h. tt }
  close_metas-Closed [] (w ∷ ws) b s g c o = absurd o
  close_metas-Closed (p ∷ ps) [] b s g c o = absurd o
  close_metas-Closed (p ∷ ps) (w ∷ ws) b s g c o =
      let t = L.write_touches p [] b s w g o.0 in
      let s1 = (S.write_all w b s).0 in
      then-rule S X (S.write_all w b s) _ (Closed (p ∷ ps) b s)
        (λ e.
          let own = L.write_owns p [] b s w g o.0 e in
          let t2 = Touches-trans t (L.close_touches p b s1 w t.good own) in
          then-rule S X (S.close w s1) _ (Closed (p ∷ ps) b s)
            (λ e2.
              let s2 = (S.close w s1).0 in
              let o2 = OwnsAll-Touches V ps ws L.apart_sym t2 c.0 o.1 in
              let rest = close_metas-Closed ps ws b s2 t2.good c.1 o2 in
              record {
                touches = TouchesAll-cons V t2 rest.touches;
                holds = λ h. (
                  rest.touches.content_eq p c.0 ∙ L.close_content p b s1 w t.good own e2,
                  rest.holds h,
                );
              })
            (λ x _. record { touches = TouchesAll-stop V ps t2; holds = λ h. cc }))
        (λ x _. record { touches = TouchesAll-stop V ps t; holds = λ h. cc })
