-- ===== src/Pipeline/Members.antt =====
-- What pipeline.rs has put into an archive that it stores.
use mathlib.Core.List.{append-nil, append_assoc}
use btdt.Prelude.{
  ◌≡◌, refl, sym, ap, ◌∙◌, inl, inr, Bool-cases, Option, Option-cases, none, some, List, [], ◌∷◌,
  ◌++◌, Bytes, same, if◌then◌else◌,
}
use btdt.Io.{Result, ok, err, map_err-ok, err-ok, Result-cases}
use btdt.Pipeline.{
  CacheTrait, Archives, Entry, FileType, is_dir, is_symlink, is_file, is_other, WalkError, failed,
  panicked, append, add_entry, add_entries, add_dir_to_archive, close_archive, store_with_overrides,
  finish_after, finished, Step,
}

abbrev pub Member : Type 0
Member = Bytes × FileType

-- A member that comes before others, if there are such.
abbrev pub before : Option Member → Option (List Member) → Option (List Member)
before none ms = none
before (some m) none = none
before (some m) (some ms) = some (m ∷ ms)

-- The member that an entry other than the root stands for.
abbrev pub member_of : Option Bytes → Option FileType → Option Member
member_of none t = none
member_of (some p) none = none
member_of (some p) (some is_other) = none
member_of (some p) (some is_dir) = some (p, is_dir)
member_of (some p) (some is_symlink) = some (p, is_symlink)
member_of (some p) (some is_file) = some (p, is_file)

module _ (C : CacheTrait) (A : Archives C) where
  open C use {State, Writer}
  open A use {Builder, Overrides}

  -- The members of the archive of a walk: each entry but the root, by its path below the root. None
  -- where the walk has failed, or an entry cannot be archived.
  abbrev pub plan : Bytes → List (Result Entry WalkError) → Option (List Member)
  plan root [] = some []
  plan root (err e ∷ entries) = none
  plan root (ok entry ∷ entries) =
      let rest = plan root entries in
      if same entry.path root
      then rest
      else before (member_of (A.strip_prefix root entry.path) entry.file_type) rest

  -- A builder keeps what was appended to it.
  pub record Keeps : Type 0 where
    pub members : Builder → List Member
    pub new-members : (w : Writer) → members (A.new w) ≡ []
    pub dir-members :
        (a p : Bytes) (b : Builder) (s : State)
        → (A.append_dir a p b s).1 ≡ ok tt
        → members (A.append_dir a p b s).0.1 ≡ members b ++ ((a, is_dir) ∷ [])
    pub link-members :
        (a t : Bytes) (b : Builder) (s : State)
        → (A.append_link a t b s).1 ≡ ok tt
        → members (A.append_link a t b s).0.1 ≡ members b ++ ((a, is_symlink) ∷ [])
    pub file-members :
        (a : Bytes) (f : A.File) (b : Builder) (s : State)
        → (A.append_file a f b s).1 ≡ ok tt
        → members (A.append_file a f b s).0.1 ≡ members b ++ ((a, is_file) ∷ [])
    pub finish-members :
        (b : Builder) (s : State)
        → (A.finish b s).1 ≡ ok tt
        → members (A.finish b s).0.1 ≡ members b

  module _ (K : Keeps) where
    open K use {members}

    append-member :
        (a p : Bytes) (t : FileType) (b : Builder) (s : State)
        → (append C A a p t b s).1 ≡ ok tt
        → (m : Member) × (member_of (some a) (some t) ≡ some m)
          × (members (append C A a p t b s).0.1 ≡ members b ++ (m ∷ []))
    unfolding append
    append-member a p is_dir b s h =
        ((a, is_dir), refl, K.dir-members a p b s (map_err-ok _ _ tt h))
    append-member a p is_symlink b s h = elim (Result-cases (A.read_link p)) [
      | inr (e, z) ↦ absurd (err-ok _ tt (rw (append, z) at h))
      | inl (target, z) ↦ (
        (a, is_symlink),
        refl,
        rw (append, z) (K.link-members a target b s (map_err-ok _ _ tt (rw (append, z) at h))),
      )
    ]
    append-member a p is_file b s h = elim (Result-cases (A.open_file p)) [
      | inr (e, z) ↦ absurd (err-ok _ tt (rw (append, z) at h))
      | inl (file, z) ↦ (
        (a, is_file),
        refl,
        rw (append, z) (K.file-members a file b s (map_err-ok _ _ tt (rw (append, z) at h))),
      )
    ]
    append-member a p is_other b s h = absurd (err-ok _ tt h)

    -- What an entry adds to the plan of the rest.
    add_entry-plan :
        (root : Bytes) (entry : Result Entry WalkError) (entries : List (Result Entry WalkError))
        (ms : List Member) (b : Builder) (s : State)
        → (add_entry C A root entry b s).1 ≡ ok tt
        → plan root entries ≡ some ms
        → (ns : List Member) × (plan root (entry ∷ entries) ≡ some (ns ++ ms))
          × (members (add_entry C A root entry b s).0.1 ≡ members b ++ ns)
    unfolding add_entry
    add_entry-plan root (err e) entries ms b s h p = absurd (err-ok _ tt h)
    add_entry-plan root (ok entry) entries ms b s h p = elim (Bool-cases (same entry.path root)) [
      | inl z ↦ ([], rw z p, rw (add_entry, z) (sym (append-nil (members b))))
      | inr z ↦ elim (Option-cases (A.strip_prefix root entry.path)) [
        | inl y ↦ absurd (err-ok panicked tt (rw (add_entry, z, y) at h))
        | inr (a, y) ↦ elim (Option-cases entry.file_type) [
          | inl x ↦ absurd (err-ok panicked tt (rw (add_entry, z, y, x) at h))
          | inr (t, x) ↦
              let (m, e, f) = append-member a entry.path t b s (rw (add_entry, z, y, x) at h) in
              (m ∷ [], rw (z, y, x, e, p) refl, rw (add_entry, z, y, x) f)
        ]
      ]
    ]

    add_entries-plan :
        (root : Bytes) (entries : List (Result Entry WalkError)) (b : Builder) (s : State)
        → (add_entries C A root entries b s).1 ≡ ok tt
        → (ms : List Member) × (plan root entries ≡ some ms)
          × (members (add_entries C A root entries b s).0.1 ≡ members b ++ ms)
    unfolding add_entries
    add_entries-plan root [] b s h = ([], refl, sym (append-nil (members b)))
    add_entries-plan root (entry ∷ entries) b s h =
        elim (Result-cases (add_entry C A root entry b s).1) [
          | inr (e, z) ↦ absurd (err-ok e tt (rw (add_entries, z) at h))
          | inl (u, z) ↦
              let (s', b') = (add_entry C A root entry b s).0 in
              let (ms, p, q) = add_entries-plan root entries b' s' (rw (add_entries, z) at h) in
              let (ns, x, y) = add_entry-plan root entry entries ms b s z p in
              (
                ns ++ ms,
                x,
                rw (add_entries, z) (q ∙ ap (λ v. v ++ ms) y ∙ append_assoc (members b) ns ms),
              )
        ]

    finished-closed :
        (root : Bytes) (x : Step C A)
        → (finished C A root x).1 ≡ ok tt
        → (x.1 ≡ ok tt)
          × (writer : Writer) × ((A.into_inner x.0.1 x.0.0).1 ≡ ok writer)
          × ((C.close writer (A.into_inner x.0.1 x.0.0).0).1 ≡ ok tt)
    unfolding close_archive
    finished-closed root ((s, b), err e) h = absurd (err-ok e tt h)
    finished-closed root ((s, b), ok u) h = elim (Result-cases (A.into_inner b s).1) [
      | inr (e, z) ↦ absurd (err-ok _ tt (rw (close_archive, z) at h))
      | inl (writer, z) ↦ (refl, writer, z, map_err-ok _ _ tt (rw (close_archive, z) at h))
    ]

    finish_after-members :
        (root : Bytes) (x : Step C A)
        → (finish_after C A root x).1 ≡ ok tt
        → (x.1 ≡ ok tt) × (members (finish_after C A root x).0.1 ≡ members x.0.1)
    finish_after-members root ((s, b), err e) h = absurd (err-ok e tt h)
    finish_after-members root ((s, b), ok u) h = (refl, K.finish-members b s (map_err-ok _ _ tt h))

    -- What a `store` that has succeeded leaves: its archive has the members of the plan, and it was
    -- closed in the cache.
    pub record Stored (root : Bytes) (overrides : Overrides) : Type 0 where
      pub ms : List Member
      pub planned : plan root (A.walk root overrides) ≡ some ms
      pub state : State
      pub builder : Builder
      pub archived : members builder ≡ ms
      pub writer : Writer
      pub inner : (A.into_inner builder state).1 ≡ ok writer
      pub closed : (C.close writer (A.into_inner builder state).0).1 ≡ ok tt

    -- Where `store_with_overrides` succeeds, the walk of the directory has met no error, the archive that
    -- it has closed in the cache holds every entry of the walk but the root, under its path below the
    -- root, in the order of the walk and nothing else.
    pub store_with_overrides-Stored :
        (keys : List Bytes) (root : Bytes) (overrides : Overrides) (s : State)
        → (store_with_overrides C A keys root overrides s).1 ≡ ok tt
        → Stored root overrides
    unfolding store_with_overrides add_dir_to_archive close_archive
    store_with_overrides-Stored keys root overrides s h = elim (Result-cases (C.set keys s).1) [
      | inr (e, z) ↦ absurd (err-ok (failed e) tt (rw (store_with_overrides, z) at h))
      | inl (w, z) ↦
          let s' = (C.set keys s).0 in
          let added = add_dir_to_archive C A root overrides (A.new w) s' in
          let done = finish_after C A root added in
          let (a, writer, i, c) = finished-closed root done (rw (store_with_overrides, z) at h) in
          let (a', m) = finish_after-members root added a in
          let (ms, p, q) = add_entries-plan root (A.walk root overrides) (A.new w) s' a' in
          record {
            ms = ms;
            planned = p;
            state = done.0.0;
            builder = done.0.1;
            archived = m ∙ q ∙ ap (λ v. v ++ ms) (K.new-members w);
            writer = writer;
            inner = i;
            closed = c;
          }
    ]
