-- ===== src/Storage/Filesystem/Disk/Adds.antt =====
-- The changes that only add to a file system: directories anywhere, and files at the places they may.
use btdt.Prelude.{
  ℕ, ◌<◌, ◌≤◌, ◌≡◌, refl, ◌∙◌, sym, ap, none, some, [], ◌∷◌, ◌++◌, arith, length, length-append,
  get_or, get_or-append_lt, get_or-append_self, Option-cases, inl, inr, ◌⊎◌,
}
use mathlib.Core.Path.{subst}
use btdt.Io.{Result, ErrorKind, Result-cases, ok, map_err, map_err-ok}
use btdt.Storage.Filesystem.Paths.{PathBuf}
use btdt.Storage.Filesystem.Disk.Names.{Location, location_dec}
use btdt.Storage.Filesystem.Disk.{
  Node, directory, regular, DiskState, node_at, assigned, content, error, tick, attempt, resolve,
  enter, create_dir, create_at, create_new, make_dir, make_file,
}
use btdt.Storage.Filesystem.Disk.Sound.{
  IsSound, HasParent, resolve-HasParent, locate, resolve-locate,
}
use btdt.Storage.Filesystem.Disk.Changes.{
  same_nodes, same_nodes-IsSound, assigned-IsSound, assigned_self, assigned_other,
}

-- `May l` says that a file may be added at `l`.
pub record Adds (May : Location → Type 0) (d e : DiskState) : Type 0 where
  pub sound : IsSound e
  pub kept : (l : Location) (x : Node) → node_at d l ≡ some x → node_at e l ≡ some x
  pub added :
      (l : Location) (i : ℕ)
      → node_at e l ≡ some (regular i)
      → (node_at d l ≡ some (regular i)) ⊎ (May l)
  pub contents : (i : ℕ) → i < length d.files → content e i ≡ content d i
  pub longer : length d.files ≤ length e.files

assigned-kept :
    (d : DiskState) (l m : Location) (x y : Node)
    → node_at d l ≡ none
    → node_at d m ≡ some y
    → node_at (assigned l x d) m ≡ some y
assigned-kept d l m x y g h =
    assigned_other d l m x (ground arith) (λ e. (ground (arith, ap (node_at d) e))) ∙ h

module _ {May : Location → Type 0} where
  pub Adds-trans : {d e f : DiskState} → Adds May d e → Adds May e f → Adds May d f
  Adds-trans {d} {e} {f} a b = record {
    sound = b.sound;
    kept = λ l x h. b.kept l x (a.kept l x h);
    added = λ l i h. elim (b.added l i h) [ inl g ↦ a.added l i g | inr g ↦ inr g ];
    contents = λ i h. b.contents i (let g = a.longer in omega arith) ∙ a.contents i h;
    longer = let g = a.longer in let h = b.longer in omega arith;
  }

  -- A change of the locks or of the clock.
  pub same-Adds :
      (d e : DiskState) → e.nodes ≡ d.nodes → e.files ≡ d.files → IsSound d → Adds May d e
  same-Adds d e h g s = record {
    sound = same_nodes-IsSound d e h (rw g (omega arith)) s;
    kept = λ l x a. same_nodes d e l h ∙ a;
    added = λ l i a. inl (sym (same_nodes d e l h) ∙ a);
    contents = λ i a. ap (λ fs. get_or fs i []) g;
    longer = rw g (omega arith);
  }

  directory-Adds :
      (d : DiskState) (l : Location)
      → IsSound d
      → HasParent d l
      → node_at d l ≡ none
      → Adds May d (assigned l directory d)
  directory-Adds d l s p g = record {
    sound = assigned-IsSound d l directory s p (ground arith) (λ i e. cc) (λ i m e. cc);
    kept = λ m x h. assigned-kept d l m directory x g h;
    added = λ m i h. elim (location_dec l m) [
      | yes e ↦ absurd (ground (arith, assigned_self d l directory, e))
      | no ne ↦ inl (sym (assigned_other d l m directory (ground arith) ne) ∙ h)
    ];
    contents = λ i h. refl;
    longer = omega arith;
  }

  -- The file that is created has the number after the others.
  pub file-Adds :
      (d : DiskState) (l : Location)
      → IsSound d
      → HasParent d l
      → node_at d l ≡ none
      → May l
      → Adds May d (create_at l d).0
  unfolding create_at
  file-Adds d l s p g may =
      let d' : DiskState = record d { files = d.files ++ ([] ∷ []) } in
      let x = regular (length d.files) in
      let more = length-append d.files ([] ∷ []) in
      let same : (m : Location) → node_at d' m ≡ node_at d m = λ m. same_nodes d d' m refl in
      let none' : node_at d' l ≡ none = same l ∙ g in
      let e : (create_at l d).0 ≡ assigned l x d' = ground arith in
      rw e (record {
        sound =
            assigned-IsSound d' l x (same_nodes-IsSound d d' refl (omega arith) s) (parent_of l p)
              (ground arith) (λ i h. (ground arith))
              (λ i m h a. (ground (arith, s.in_range m i (sym (same m) ∙ a))));
        kept = λ m y h. assigned-kept d' l m x y none' (same m ∙ h);
        added = λ m i h. elim (location_dec l m) [
          | yes e ↦ inr (subst May e may)
          | no ne ↦ inl (sym (same m) ∙ sym (assigned_other d' l m x (ground arith) ne) ∙ h)
        ];
        contents = λ i h. get_or-append_lt d.files ([] ∷ []) i [] h;
        longer = omega arith;
      })
    where
      parent_of :
          (l : Location) → HasParent d l → HasParent (record d { files = d.files ++ ([] ∷ []) }) l
      parent_of [] h = tt
      parent_of (n ∷ m) h = same_nodes d (record d { files = d.files ++ ([] ∷ []) }) m refl ∙ h

  pub refl-Adds : (d : DiskState) → IsSound d → Adds May d d
  refl-Adds d s = same-Adds d d refl refl s

  attempt-Adds :
      {A : Type 0} (d : DiskState) (f : DiskState → DiskState × Result A ErrorKind)
      → IsSound d
      → ((e : DiskState) → IsSound e → Adds May e (f e).0)
      → Adds May d (attempt d f).0
  unfolding attempt
  attempt-Adds d f s h = elim (Option-cases (d.faults d.ticks)) [
    | inl a ↦
        rw (attempt, a)
          (Adds-trans (same-Adds d (tick d) refl refl s)
            (h (tick d) (same_nodes-IsSound d (tick d) refl (omega arith) s)))
    | inr (x, a) ↦ rw (attempt, a) (same-Adds d (tick d) refl refl s)
  ]

  pub create_dir-Adds : (p : PathBuf) (d : DiskState) → IsSound d → Adds May d (create_dir p d).0
  unfolding create_dir
  create_dir-Adds p d s = attempt-Adds d (make_dir p) s λ e t. elim (Result-cases (resolve e p)) [
    | inr (x, a) ↦ rw (make_dir, a) (refl-Adds e t)
    | inl (l, a) ↦ elim (Option-cases (node_at e l)) [
      | inl b ↦ rw (make_dir, a, enter, b) (directory-Adds e l t (resolve-HasParent e p l t a) b)
      | inr (x, b) ↦ rw (make_dir, a, enter, b) (refl-Adds e t)
    ]
  ]

  pub create_new-Adds :
      (p : PathBuf) (d : DiskState)
      → IsSound d
      → ((e : DiskState) (l : Location) → resolve e p ≡ ok l → May l)
      → Adds May d (create_new p d).0
  unfolding create_new
  create_new-Adds p d s may = attempt-Adds d (make_file p) s λ e t.
      elim (Result-cases (resolve e p)) [
        | inr (x, a) ↦ rw (make_file, a) (refl-Adds e t)
        | inl (l, a) ↦ elim (Option-cases (node_at e l)) [
          | inl b ↦ rw (make_file, a) (file-Adds e l t (resolve-HasParent e p l t a) b (may e l a))
          | inr (x, b) ↦ rw (make_file, a, create_at, b) (refl-Adds e t)
        ]
      ]

pub attempt_ok :
    {A : Type 0} (d : DiskState) (f : DiskState → DiskState × Result A ErrorKind) (a : A)
    → (attempt d f).1 ≡ ok a
    → ((attempt d f).0 ≡ (f (tick d)).0) × ((f (tick d)).1 ≡ ok a)
unfolding attempt
attempt_ok d f a h = elim (Option-cases (d.faults d.ticks)) [
  | inl b ↦
      let g : map_err error (f (tick d)).1 ≡ ok a = (rw (attempt, b) at h) in
      (rw (attempt, b) refl, map_err-ok error (f (tick d)).1 a g)
  | inr (x, b) ↦ absurd (ground arith)
]

make_file_ok :
    (p : PathBuf) (d : DiskState) (i : ℕ) (k : Location)
    → (make_file p d).1 ≡ ok i
    → locate p ≡ some k
    → (node_at (make_file p d).0 k ≡ some (regular i)) × (content (make_file p d).0 i ≡ [])
make_file_ok p d i k h g = elim (Result-cases (resolve d p)) [
  | inr (x, a) ↦ absurd (ground arith)
  | inl (l, a) ↦ elim (Option-cases (node_at d l)) [
    | inr (x, b) ↦ absurd (ground arith)
    | inl b ↦
        let e : l ≡ k = resolve-locate d p l k g a in
        let f : DiskState = record d { files = d.files ++ ([] ∷ []) } in
        let i_eq : length d.files ≡ i = ground arith in
        rw (make_file, a, create_at, b, ← i_eq, ← e)
          (
            assigned_self f l (regular (length d.files)) (ground (arith, same_nodes d f l refl)),
            get_or-append_self d.files [] [],
          )
  ]
]

-- The new file is empty, and stands at the place that the path names.
pub create_new_ok :
    (p : PathBuf) (d : DiskState) (i : ℕ) (k : Location)
    → (create_new p d).1 ≡ ok i
    → locate p ≡ some k
    → (node_at (create_new p d).0 k ≡ some (regular i)) × (content (create_new p d).0 i ≡ [])
unfolding create_new
create_new_ok p d i k h g =
    let (a, b) = attempt_ok d (make_file p) i h in rw a (make_file_ok p (tick d) i k b g)
