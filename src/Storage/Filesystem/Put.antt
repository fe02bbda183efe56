-- ===== src/Storage/Filesystem/Put.antt =====
-- What `put` of storage/filesystem/mod.rs does to the disk.
use btdt.Prelude.{
  ℕ, zero, suc, ◌≡◌, refl, ◌∙◌, false, some, [], ◌∷◌, arith, Option-cases, Bool-cases, inl, inr,
}
use btdt.Io.{Result-cases, ok, err-ok, ok-subst}
use btdt.Storage.Filesystem.Paths.{PathBuf, join, parent}
use btdt.Storage.Filesystem.Staged.{StagedFile, Locking, create_and_lock, release}
use btdt.Storage.Filesystem.Disk.{
  DiskState, regular, node_at, content, exists, create_dir, create_new, resolve,
}
use btdt.Storage.Filesystem.Disk.Names.{Location}
use btdt.Storage.Filesystem.Disk.Sound.{IsSound, locate}
use btdt.Storage.Filesystem.Disk.Adds.{
  Adds, Adds-trans, refl-Adds, same-Adds, create_dir-Adds, create_new-Adds, create_new_ok,
}
use btdt.Storage.Filesystem.Disk.Changes.{same_nodes}
use btdt.Storage.Filesystem.{Host, is_parent_dir, create_dirs, make_parents}

module _ {May : Location → Type 0} where
  create_dirs-Adds :
      (path p : PathBuf) (d : DiskState) → IsSound d → Adds May d (create_dirs path p d).0
  unfolding create_dirs
  create_dirs-Adds path [] d s = refl-Adds d s
  create_dirs-Adds path (c ∷ cs) d s = elim (Bool-cases (is_parent_dir c)) [
    | inl a ↦ rw (create_dirs, a) (refl-Adds d s)
    | inr a ↦ elim (Bool-cases (exists d (join path (c ∷ [])))) [
      | inl b ↦ rw (create_dirs, a, b) (create_dirs-Adds (join path (c ∷ [])) cs d s)
      | inr b ↦
          let next = join path (c ∷ []) in
          let made : Adds May d (create_dir next d).0 = create_dir-Adds next d s in
          elim (Result-cases (create_dir next d).1) [
            | inl (u, e) ↦
                rw (create_dirs, a, b, e)
                  (Adds-trans made (create_dirs-Adds next cs (create_dir next d).0 made.sound))
            | inr (x, e) ↦ rw (create_dirs, a, b, e) made
          ]
    ]
  ]

module _ (H : Host) (root : PathBuf) {May : Location → Type 0} where
  pub make_parents-Adds :
      (p : PathBuf) (d : DiskState) → IsSound d → Adds May d (make_parents H root p d).0
  unfolding make_parents
  make_parents-Adds p d s = elim (Bool-cases (exists d root)) [
    | inr a ↦ rw (make_parents, a) (refl-Adds d s)
    | inl a ↦ elim (Option-cases (parent p)) [
      | inl b ↦ rw (make_parents, a, b) (refl-Adds d s)
      | inr (q, b) ↦ rw (make_parents, a, b) (create_dirs-Adds [] q d s)
    ]
  ]

abbrev locked : Locking → ℕ → DiskState → DiskState
locked K i d = record d { locks = (K.lock_exclusive i d.locks).0 }

locked-Adds :
    {May : Location → Type 0} (K : Locking) (i : ℕ) (d : DiskState)
    → IsSound d
    → Adds May d (locked K i d)
locked-Adds K i d s = same-Adds d (locked K i d) refl refl s

release-Adds :
    {May : Location → Type 0} (i : ℕ) (d : DiskState) → IsSound d → Adds May d (release i d)
release-Adds i d s = same-Adds d (release i d) refl refl s

-- A try to make the temporary file adds at most that file.
pub create_and_lock-Adds :
    {May : Location → Type 0} (K : Locking) (n : ℕ) (target tmp : PathBuf) (d : DiskState)
    → IsSound d
    → ((e : DiskState) (l : Location) → resolve e tmp ≡ ok l → May l)
    → Adds May d (create_and_lock K n target tmp d).0
unfolding create_and_lock
create_and_lock-Adds K zero target tmp d s m = refl-Adds d s
create_and_lock-Adds {May} K (suc n) target tmp d s m =
    let d1 = (create_new tmp d).0 in
    let a : Adds May d d1 = create_new-Adds tmp d s m in
    elim (Result-cases (create_new tmp d).1) [
      | inr (x, e) ↦ rw (create_and_lock, e) a
      | inl (i, e) ↦
          let b : Adds May d (locked K i d1) = Adds-trans a (locked-Adds K i d1 a.sound) in
          elim (Result-cases (K.lock_exclusive i d1.locks).1) [
            | inr (x, f) ↦ rw (create_and_lock, e, f) b
            | inl (u, f) ↦ elim (Bool-cases (exists (locked K i d1) tmp)) [
              | inl g ↦ rw (create_and_lock, e, f, g) b
              | inr g ↦
                  let c : Adds May d (release i (locked K i d1)) =
                    Adds-trans b (release-Adds i (locked K i d1) b.sound) in
                  rw (create_and_lock, e, f, g)
                    (Adds-trans c
                      (create_and_lock-Adds K n target tmp (release i (locked K i d1)) c.sound m))
            ]
          ]
    ]

-- The writer of a temporary file at the place `k`, which has nothing written.
pub record IsFresh (target tmp : PathBuf) (k : Location) (d : DiskState) (w : StagedFile)
    : Type 0 where
  pub there : node_at d k ≡ some (regular w.file)
  pub empty : content d w.file ≡ []
  pub tmp_eq : w.tmp_path ≡ tmp
  pub target_eq : w.target_path ≡ target
  pub unfinished : w.finalized ≡ false

pub create_and_lock_ok :
    (K : Locking) (n : ℕ) (target tmp : PathBuf) (d : DiskState) (k : Location) (w : StagedFile)
    → locate tmp ≡ some k
    → (create_and_lock K n target tmp d).1 ≡ ok w
    → IsFresh target tmp k (create_and_lock K n target tmp d).0 w
unfolding create_and_lock
create_and_lock_ok K zero target tmp d k w a h = absurd (ground arith)
create_and_lock_ok K (suc n) target tmp d k w a h =
    let d1 = (create_new tmp d).0 in
    elim (Result-cases (create_new tmp d).1) [
      | inr (x, e) ↦ absurd (err-ok _ _ (rw (create_and_lock, e) at h))
      | inl (i, e) ↦ elim (Result-cases (K.lock_exclusive i d1.locks).1) [
        | inr (x, f) ↦ absurd (err-ok _ _ (rw (create_and_lock, e, f) at h))
        | inl (u, f) ↦ elim (Bool-cases (exists (locked K i d1) tmp)) [
          | inl g ↦
              let (there, empty) = create_new_ok tmp d i k e a in
              rw (create_and_lock, e, f, g)
                (ok-subst (IsFresh target tmp k (locked K i d1))
                  (rw (create_and_lock, e, f, g) at h)
                  (record {
                    there = same_nodes d1 (locked K i d1) k refl ∙ there;
                    empty = empty;
                    tmp_eq = refl;
                    target_eq = refl;
                    unfinished = refl;
                  }))
          | inr g ↦
              rw (create_and_lock, e, f, g)
                (create_and_lock_ok K n target tmp (release i (locked K i d1)) k w a
                  (rw (create_and_lock, e, f, g) at h))
        ]
      ]
    ]
