-- ===== src/Storage/Filesystem/Closing.antt =====
-- Closing a staged file of storage/filesystem moves it to its target, and touches nothing else.
use btdt.Prelude.{
  ℕ, ◌≡◌, ◌≢◌, refl, ◌∙◌, sym, ap, some, [], arith, Bytes, Option-cases, Bool-cases, true, false,
  none, inl, inr, ◌⊎◌,
}
use btdt.Io.{
  IoResult, Result-cases, ok, err, IoError, ErrorKind, is_a_directory, not_a_directory, not_found,
}
use btdt.Storage.Filesystem.Paths.{PathBuf, trimmed, ends_in_dir}
use btdt.Storage.Filesystem.Canonical.{trimmed_same}
use btdt.Storage.Filesystem.Places.{tmp_at, tmp_at_ne}
use btdt.Storage.Filesystem.Staged
use btdt.Storage.Filesystem.Staged.{StagedFile, finalize, release}
use btdt.Storage.Filesystem.Disk.{
  DiskState, directory, special, regular, node_at, error, tick, attempt, rename, move, rename_at,
  resolve, assigned,
}
use btdt.Storage.Filesystem.Disk.Names.{Location}
use btdt.Storage.Filesystem.Disk.Sound.{
  IsSound, HasParent, locate, resolve-locate, resolve-HasParent,
}
use btdt.Storage.Filesystem.Disk.Changes.{
  same_nodes, same_nodes-IsSound, assigned-IsSound, assigned_self, assigned_other, removed,
  removed_other, removed-some, removed-IsSound, removed-HasParent,
}
use btdt.Storage.Filesystem.View.{IsStaged}
use btdt.Storage.Filesystem.{Host, State, close}

-- The file `i` was moved from `a` to `b`, where no directory was.
pub record Moves (a b : Location) (i : ℕ) (d e : DiskState) : Type 0 where
  pub sound : IsSound e
  pub files : e.files ≡ d.files
  pub not_directory : node_at d b ≢ some directory
  pub target : node_at e b ≡ some (regular i)
  pub others : (l : Location) → a ≢ l → b ≢ l → node_at e l ≡ node_at d l

-- Nothing has changed but the clock and the locks.
abbrev pub Stays : DiskState → DiskState → Type 0
Stays d e = (e.nodes ≡ d.nodes) × (e.files ≡ d.files)

abbrev pub relocated : Location → Location → ℕ → DiskState → DiskState
relocated a b i d = assigned b (regular i) (removed a d)

relocated-Moves :
    (a b : Location) (i : ℕ) (d : DiskState)
    → IsSound d
    → a ≢ b
    → HasParent d b
    → node_at d a ≡ some (regular i)
    → node_at d b ≢ some directory
    → Moves a b i d (relocated a b i d)
relocated-Moves a b i d s ne p h g =
    let a_file : node_at d a ≢ some directory = λ e. ground arith in
    let b_free : node_at (removed a d) b ≢ some directory =
      λ e. g (removed-some d a b directory a_file e).1 in
    record {
      sound =
          assigned-IsSound (removed a d) b (regular i) (removed-IsSound d a s a_file)
            (removed-HasParent d a b a_file p) b_free (λ j e. s.in_range a j (ground arith))
            (λ j m e f.
              let (m_ne, m_at) = removed-some d a m (regular j) a_file f in
              m_ne (s.distinct a m j (ground arith) m_at));
      files = refl;
      not_directory = g;
      target = assigned_self (removed a d) b (regular i) b_free;
      others = λ l x y.
          assigned_other (removed a d) b l (regular i) b_free y ∙ removed_other d a l a_file x;
    }

rename_at-cases :
    (a b : Location) (i : ℕ) (d : DiskState)
    → ((node_at d b ≢ some directory) × (rename_at a b (regular i) d ≡ (relocated a b i d, ok tt)))
      ⊎ ((x : ErrorKind) × (rename_at a b (regular i) d ≡ (d, err x)))
rename_at-cases a b i d = elim (Option-cases (node_at d b)) [
  | inl h ↦ inl ((λ e. ground arith), rw (rename_at, h) refl)
  | inr (directory, h) ↦ inr (is_a_directory, rw (rename_at, h) refl)
  | inr (special, h) ↦ inl ((λ e. ground arith), rw (rename_at, h) refl)
  | inr (regular j, h) ↦ inl ((λ e. ground arith), rw (rename_at, h) refl)
]

-- To move a file to another place moves it, or changes nothing and fails.
move-cases :
    (p q : PathBuf) (a b : Location) (i : ℕ) (d : DiskState)
    → IsSound d
    → locate p ≡ some a
    → locate q ≡ some b
    → ends_in_dir q ≡ false
    → a ≢ b
    → node_at d a ≡ some (regular i)
    → (Moves a b i d (move p q d).0 × ((move p q d).1 ≡ ok tt))
      ⊎ (((move p q d).0 ≡ d) × ((x : ErrorKind) × ((move p q d).1 ≡ err x)))
move-cases p q a b i d s pa qb um ne h = elim (Result-cases (resolve d p)) [
  | inr (x, e) ↦ inr (rw (move, e) (refl, (x, refl)))
  | inl (m, e) ↦
      let m_eq : node_at d m ≡ some (regular i) =
        ap (node_at d) (resolve-locate d p m a pa e) ∙ h in
      elim (Result-cases (resolve d q)) [
        | inr (x, f) ↦ inr (rw (move, e, m_eq, um, f) (refl, (x, refl)))
        | inl (n, f) ↦
            let ma : m ≡ a = resolve-locate d p m a pa e in
            let nb : n ≡ b = resolve-locate d q n b qb f in
            elim (rename_at-cases m n i d) [
              | inl (g, r) ↦ inl (
                  rw (move, e, m_eq, um, f, r, ← ma, ← nb)
                    (
                      relocated-Moves m n i d s (λ x. ne (sym ma ∙ x ∙ nb))
                          (resolve-HasParent d q n s f) m_eq g,
                      refl,
                    ))
              | inr (x, r) ↦ inr (rw (move, e, m_eq, um, f, r) (refl, (x, refl)))
            ]
      ]
]

Moves-later :
    (a b : Location) (i : ℕ) (d e f : DiskState)
    → f.nodes ≡ e.nodes
    → f.files ≡ e.files
    → Moves a b i d e
    → Moves a b i d f
Moves-later a b i d e f x y m = record {
  sound = same_nodes-IsSound e f x (rw y (omega arith)) m.sound;
  files = y ∙ m.files;
  not_directory = m.not_directory;
  target = same_nodes e f b x ∙ m.target;
  others = λ l g h. same_nodes e f l x ∙ m.others l g h;
}

Moves-tick : (a b : Location) (i : ℕ) (d e : DiskState) → Moves a b i (tick d) e → Moves a b i d e
Moves-tick a b i d e m = record {
  sound = m.sound;
  files = m.files;
  not_directory = λ h. m.not_directory (same_nodes d (tick d) b refl ∙ h);
  target = m.target;
  others = λ l g h. m.others l g h ∙ same_nodes d (tick d) l refl;
}

-- A file is moved, or nothing changes and there is an error.
pub record HasError {A : Type 0} (r : IoResult A) : Type 0 where
  pub error : IoError
  pub result : r ≡ err error

-- A file is not moved to a path that can only lead to a directory.
move-marked :
    (p q : PathBuf) (d : DiskState)
    → ends_in_dir q ≡ true
    → ((move p q d).0 ≡ d) × ((x : ErrorKind) × ((move p q d).1 ≡ err x))
move-marked p q d h = elim (Result-cases (resolve d p)) [
  | inr (x, e) ↦ rw (move, e) (refl, (x, refl))
  | inl (m, e) ↦ elim (Option-cases (node_at d m)) [
    | inl g ↦ rw (move, e, g) (refl, (not_found, refl))
    | inr (n, g) ↦ rw (move, e, g, h) (refl, (not_a_directory, refl))
  ]
]

rename-cases :
    (p q : PathBuf) (a b : Location) (i : ℕ) (d : DiskState)
    → IsSound d
    → locate p ≡ some a
    → locate (trimmed q) ≡ some b
    → a ≢ b
    → node_at d a ≡ some (regular i)
    → (Moves a b i d (rename p q d).0 × ((rename p q d).1 ≡ ok tt) × (ends_in_dir q ≡ false))
      ⊎ (Stays d (rename p q d).0 × HasError (rename p q d).1)
unfolding rename attempt
rename-cases p q a b i d s pa qb ne h = elim (Option-cases (d.faults d.ticks)) [
  | inr ((n, x), g) ↦
      inr (rw (rename, attempt, g) ((refl, refl), record { error = x; result = refl }))
  | inl g ↦ elim (Bool-cases (ends_in_dir q)) [
    | inl marked ↦ inr (stays g (move-marked p q (tick d) marked))
    | inr um ↦
        elim (move-cases p q a b i (tick d) (same_nodes-IsSound d (tick d) refl (omega arith) s) pa
          (rw (trimmed_same q um) at qb) um ne (same_nodes d (tick d) a refl ∙ h)) [
            | inl (m, r) ↦ inl (rw (rename, attempt, g, r) (Moves-tick a b i d _ m, refl, um))
            | inr x ↦ inr (stays g x)
          ]
  ]
]
  where
    stays :
        d.faults d.ticks ≡ none
        → ((move p q (tick d)).0 ≡ tick d) × ((x : ErrorKind) × ((move p q (tick d)).1 ≡ err x))
        → Stays d (rename p q d).0 × HasError (rename p q d).1
    stays g (e, (x, r)) =
        rw (rename, attempt, g, r)
          ((ap (λ f. f.nodes) e, ap (λ f. f.files) e), record { error = error x; result = refl })

module _ (H : Host) (root : PathBuf) where
  -- A close moves the temporary file to the target, or changes no name and no content.
  pub close-cases :
      (s : State) (w : StagedFile) (k : Location) (suffix b : Bytes)
      → IsSound s.disk
      → IsStaged s.disk w k suffix b
      → (Moves (tmp_at suffix k) k w.file s.disk (close H root w s).0.disk
          × ((close H root w s).1 ≡ ok tt)
          × (ends_in_dir w.target_path ≡ false))
        ⊎ (Stays s.disk (close H root w s).0.disk × HasError (close H root w s).1)
  unfolding close Staged.close finalize Staged.drop tmp_at node_at
  close-cases s w k suffix b sound o =
      let ne : tmp_at suffix k ≢ k = tmp_at_ne suffix k λ h. not_root h o.there in
      let e = (rename w.tmp_path w.target_path s.disk).0 in
      elim (rename-cases w.tmp_path w.target_path (tmp_at suffix k) k w.file s.disk sound o.tmp
        o.target ne o.there) [
          | inl (m, r, um) ↦ inl (
            Moves-later (tmp_at suffix k) k w.file s.disk e (release w.file e) refl refl m,
            r,
            um,
          )
          | inr (m, r) ↦ inr (m, r)
        ]
    where
      not_root : k ≡ [] → node_at s.disk (tmp_at suffix k) ≡ some (regular w.file) → ⊥
      not_root h g = cc
