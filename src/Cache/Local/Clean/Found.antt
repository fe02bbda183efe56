-- ===== src/Cache/Local/Clean/Found.antt =====
-- What the first half of `LocalCache::clean` of local.rs finds: the blobs with their keys and last uses.
use btdt.Prelude.{
  ℕ, ◌≡◌, refl, ◌∙◌, sym, Option, none, some, List, [], ◌∷◌, ◌++◌, Bytes, codes, arith, true,
  Bool-cases, inl, inr, bytes_dec, ite,
}
use mathlib.Core.Path.{subst}
use btdt.Io.{Result, ok, err, err-ok, IoPathResult, Result-cases}
use btdt.Storage.Interface.{Storage}
use btdt.Cache.Externals.{Externals, IsOrdered}
use btdt.Cache.Meta
use btdt.Cache.Meta.{Meta}
use btdt.Cache.Local.{read_meta}
use btdt.Cache.Local.Clean.Gather.{
  Blob, SubdirFile, gather, blobs_of, enter_meta, enter_key, later, size_of, blob_sizes,
  iter_subdir_files,
}

by_decision :
    {A C : Type 0} (P : C → Type 0) (d : Dec A) {x y : C} → (A → P x) → (¬ A → P y) → P (ite d x y)
by_decision P (yes a) f g = f a
by_decision P (no n) f g = g n

module _ (S : Storage) (X : Externals) where
  -- A key of a blob is the name of a file whose metadata names the blob, and the blob was used since then.
  pub record IsKeyOf (s : S.State) (b : Blob S X) (key : Bytes) : Type 0 where
    pub file : SubdirFile
    pub name_eq : file.name ≡ key
    pub meta : Meta
    pub time : X.DateTime
    pub read : read_meta S X file.path s ≡ ok meta
    pub time_eq : Meta.latest_access X meta ≡ ok time
    pub blob : Meta.blob_id X meta ≡ b.blob_id
    pub since : X.at_least b.latest_access time ≡ true

  abbrev pub AllKeys : S.State → Blob S X → List Bytes → Type 0
  AllKeys s b [] = Unit
  AllKeys s b (key ∷ keys) = IsKeyOf s b key × AllKeys s b keys

  abbrev pub AllFound : S.State → List (Blob S X) → Type 0
  AllFound s [] = Unit
  AllFound s (b ∷ bs) = AllKeys s b b.keys × AllFound s bs

  append-AllKeys :
      (s : S.State) (b : Blob S X) (keys : List Bytes) (key : Bytes)
      → AllKeys s b keys
      → IsKeyOf s b key
      → AllKeys s b (keys ++ (key ∷ []))
  append-AllKeys s b [] key a h = (h, tt)
  append-AllKeys s b (k ∷ keys) key a h = (a.0, append-AllKeys s b keys key a.1 h)

  module _ (O : IsOrdered X) where
    at_least_refl : (a : X.DateTime) → X.at_least a a ≡ true
    at_least_refl a = elim (Bool-cases (X.at_least a a)) [ inl h ↦ h | inr h ↦ O.total a a h ]

    later_left : (a b : X.DateTime) → X.at_least (later S X a b) a ≡ true
    unfolding later
    later_left a b = elim (Bool-cases (X.at_least b a)) [
      | inl h ↦ rw (later, h) h
      | inr h ↦ rw (later, h) (at_least_refl a)
    ]

    later_right : (a b : X.DateTime) → X.at_least (later S X a b) b ≡ true
    unfolding later
    later_right a b = elim (Bool-cases (X.at_least b a)) [
      | inl h ↦ rw (later, h) (at_least_refl b)
      | inr h ↦ rw (later, h) (O.total b a h)
    ]

    -- A later use keeps the keys of a blob.
    used_later :
        (s : S.State) (b c : Blob S X) (keys : List Bytes)
        → c.blob_id ≡ b.blob_id
        → X.at_least c.latest_access b.latest_access ≡ true
        → AllKeys s b keys
        → AllKeys s c keys
    used_later s b c [] e h a = tt
    used_later s b c (k ∷ keys) e h (x, a) = (
      record {
        file = x.file;
        name_eq = x.name_eq;
        meta = x.meta;
        time = x.time;
        read = x.read;
        time_eq = x.time_eq;
        blob = x.blob ∙ sym e;
        since = O.transitive c.latest_access b.latest_access x.time h x.since;
      },
      used_later s b c keys e h a,
    )

    enter_key-AllFound :
        (s : S.State) (f : SubdirFile) (m : Meta) (t : X.DateTime) (size : ℕ)
        (blobs : List (Blob S X))
        → read_meta S X f.path s ≡ ok m
        → Meta.latest_access X m ≡ ok t
        → AllFound s blobs
        → AllFound s (enter_key S X (Meta.blob_id X m) size t f.name blobs)
    unfolding enter_key
    enter_key-AllFound s f m t size [] h g a = (
      (
        record {
          file = f;
          name_eq = refl;
          meta = m;
          time = t;
          read = h;
          time_eq = g;
          blob = refl;
          since = later_right t t;
        },
        tt,
      ),
      tt,
    )
    enter_key-AllFound s f m t size (b ∷ bs) h g (x, a) =
        let c : Blob S X = record b { latest_access = later S X b.latest_access t } in
        by_decision (AllFound s) (bytes_dec b.blob_id (Meta.blob_id X m))
          (λ e. (
            used_later s c (record c { keys = b.keys ++ (f.name ∷ []) }) (b.keys ++ (f.name ∷ []))
                refl (at_least_refl _)
                (append-AllKeys s c b.keys f.name
                  (used_later s b c b.keys refl (later_left b.latest_access t) x)
                  (record {
                    file = f;
                    name_eq = refl;
                    meta = m;
                    time = t;
                    read = h;
                    time_eq = g;
                    blob = sym e;
                    since = later_right b.latest_access t;
                  })),
            a,
          ))
          (λ ne. (x, enter_key-AllFound s f m t size bs h g a))

    blobs_of-AllFound :
        (s : S.State) (sizes : List (Bytes × ℕ)) (files : List (IoPathResult SubdirFile))
        (blobs found : List (Blob S X))
        → blobs_of S X s sizes files blobs ≡ ok found
        → AllFound s blobs
        → AllFound s found
    unfolding blobs_of enter_meta
    blobs_of-AllFound s sizes [] blobs found h a =
        let e : blobs ≡ found = ground arith in subst (AllFound s) e a
    blobs_of-AllFound s sizes (err e ∷ files) blobs found h a = absurd (err-ok _ _ h)
    blobs_of-AllFound s sizes (ok f ∷ files) blobs found h a =
        elim (Result-cases (read_meta S X f.path s)) [
          | inr (x, e) ↦ absurd (err-ok _ _ (rw (blobs_of, e) at h))
          | inl (m, e) ↦ elim (Result-cases (Meta.latest_access X m)) [
            | inr (x, g) ↦ absurd (err-ok _ _ (rw (blobs_of, e, g) at h))
            | inl (t, g) ↦
                blobs_of-AllFound s sizes files _ found (rw (blobs_of, e, g) at h)
                  (entered (size_of (Meta.blob_id X m) sizes) m t e g)
          ]
        ]
      where
        entered :
            (o : Option ℕ) (m : Meta) (t : X.DateTime)
            → read_meta S X f.path s ≡ ok m
            → Meta.latest_access X m ≡ ok t
            → AllFound s (enter_meta S X f.name (Meta.blob_id X m) t o blobs)
        entered none m t e g = a
        entered (some size) m t e g = enter_key-AllFound s f m t size blobs e g a

    -- What `clean` finds is so: every key of a blob is the name of a file whose metadata names the blob, and
    -- the blob's last use is not before that of any of its keys.
    pub gather-AllFound :
        (s : S.State) (found : List (Blob S X)) → gather S X s ≡ ok found → AllFound s found
    unfolding gather
    gather-AllFound s found h = elim (Result-cases (iter_subdir_files S X (codes "/blob") s)) [
      | inr (x, a) ↦ absurd (err-ok _ _ (rw (gather, a) at h))
      | inl (files, a) ↦ elim (Result-cases (blob_sizes S X files [])) [
        | inr (x, b) ↦ absurd (err-ok _ _ (rw (gather, a, b) at h))
        | inl (sizes, b) ↦ elim (Result-cases (iter_subdir_files S X (codes "/meta") s)) [
          | inr (x, c) ↦ absurd (err-ok _ _ (rw (gather, a, b, c) at h))
          | inl (keys, c) ↦ elim (Result-cases (blobs_of S X s sizes keys [])) [
            | inr (x, e) ↦ absurd (err-ok _ _ (rw (gather, a, b, c, e) at h))
            | inl (bs, e) ↦
                let g : bs ≡ found = ok_inj (rw (gather, a, b, c, e) at h) in
                subst (AllFound s) g (blobs_of-AllFound s sizes keys [] bs e tt)
          ]
        ]
      ]
    ]
      where
        ok_inj : {E A : Type 0} {x y : A} → ◌≡◌ {A = Result A E} (ok x) (ok y) → x ≡ y
        ok_inj h = ground arith
