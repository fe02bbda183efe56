-- ===== src/Storage/Filesystem/Appending.antt =====
-- Writing to a staged file of storage/filesystem touches its temporary file alone.
use btdt.Prelude.{
  ℕ, ◌<◌, ◌≡◌, ◌≢◌, refl, ◌∙◌, sym, ap, Option, some, [], ◌++◌, arith, Bytes, length, take, drop,
  take-append-drop, set, length-set, get_or, get_or-set_self, get_or-set_ne, Option-cases, inl, inr,
}
use mathlib.Core.List.{append-nil}
use btdt.Io.{ok}
use btdt.Storage.Interface.{Touches, View}
use btdt.Storage.Filesystem.Paths.{PathBuf}
use btdt.Storage.Filesystem.Places.{tmp_at, tmp_at-inj}
use btdt.Storage.Filesystem.Staged.{StagedFile}
use btdt.Storage.Filesystem.Disk.{
  DiskState, Node, directory, special, regular, node_at, content, write_file,
}
use btdt.Storage.Filesystem.Disk.Names.{Location}
use btdt.Storage.Filesystem.Disk.Sound.{IsSound}
use btdt.Storage.Filesystem.Disk.Changes.{same_nodes, same_nodes-IsSound}
use btdt.Storage.Filesystem.View.{filesystem, filesystem_view, IsStaged, same_at}
use btdt.Storage.Filesystem.{Host, State, write_all}

-- A write at the end of a file, whole or in part
pub record Appends (i : ℕ) (x : Bytes) (d e : DiskState) : Type 0 where
  pub nodes : e.nodes ≡ d.nodes
  pub files : e.files ≡ set d.files i (content d i ++ x)

-- The beginning of a text
abbrev pub IsPrefix : Bytes → Bytes → Type 0
IsPrefix x c = (rest : Bytes) × (x ++ rest ≡ c)

pub write_file-Appends :
    (i : ℕ) (c : Bytes) (d : DiskState)
    → (x : Bytes) × Appends i x d (write_file i c d).0
      × ((write_file i c d).1 ≡ ok tt → x ≡ c)
      × IsPrefix x c
unfolding write_file
write_file-Appends i c d = elim (Option-cases (d.faults d.ticks)) [
  | inl a ↦
      (c, rw (write_file, a) (record { nodes = refl; files = refl }), λ h. refl, ([], append-nil c))
  | inr ((n, e), a) ↦ (
    take n c,
    rw (write_file, a) (record { nodes = refl; files = refl }),
    λ h. absurd (ground arith),
    (drop n c, take-append-drop n c),
  )
]

module _ {i : ℕ} {x : Bytes} (d e : DiskState) (a : Appends i x d e) where
  pub Appends-content : i < length d.files → content e i ≡ content d i ++ x
  Appends-content h =
      ap (λ fs. get_or fs i []) a.files ∙ get_or-set_self d.files i (content d i ++ x) [] h

  pub Appends-other : (j : ℕ) → i ≢ j → content e j ≡ content d j
  Appends-other j h =
      ap (λ fs. get_or fs j []) a.files ∙ get_or-set_ne d.files i j (content d i ++ x) [] h

  pub Appends-IsSound : IsSound d → IsSound e
  Appends-IsSound s =
      same_nodes-IsSound d e a.nodes
        (rw (a.files, length-set d.files i (content d i ++ x)) (omega arith)) s

module _ (H : Host) (root : PathBuf) (base : Location) where
  abbrev pub view : View (filesystem H root)
  view = filesystem_view H root base

  -- A temporary file has a place other than the root directory, and no other path's writer has it.
  pub IsStaged-apart :
      (d : DiskState) (w v : StagedFile) (k l : Location) (s t b c : Bytes)
      → IsSound d
      → k ≢ l
      → IsStaged d w k s b
      → IsStaged d v l t c
      → tmp_at s k ≢ tmp_at t l
  unfolding tmp_at node_at
  IsStaged-apart d w v k l s t b c sound ne x y e = ne (
      tmp_at-inj s t k l (x.short ∙ sym y.short)
        (λ h. elim (some_regular (ap (node_at d) (ap (tmp_at s) (sym h)) ∙ x.there)) [ ])
        (λ h. elim (some_regular (ap (node_at d) (ap (tmp_at t) (sym h)) ∙ y.there)) [ ]) e)
    where
      some_regular : {i : ℕ} → ◌≡◌ {A = Option Node} (some directory) (some (regular i)) → ⊥
      some_regular h = cc h

  Appends-Touches :
      (p b x : Bytes) (s t : State) (w : StagedFile)
      → view.Good s
      → view.Owns s w p b
      → Appends w.file x s.disk t.disk
      → Touches view p s t
  Appends-Touches p b x s t w (sound, there) (k, suffix, (at, path), o) a = record {
    good = (Appends-IsSound s.disk t.disk a sound, same_nodes s.disk t.disk base a.nodes ∙ there);
    content_eq = λ q (k', l, y, z, ne, f, g).
        same_at H root q l s.disk t.disk z (elim (Option-cases (node_at s.disk l)) [
          | inl h ↦ rw (h, same_nodes s.disk t.disk l a.nodes ∙ h) refl
          | inr (directory, h) ↦ rw (h, same_nodes s.disk t.disk l a.nodes ∙ h) refl
          | inr (special, h) ↦ rw (h, same_nodes s.disk t.disk l a.nodes ∙ h) refl
          | inr (regular i, h) ↦
              let k_eq : k' ≡ k = ground arith in
              rw (h, same_nodes s.disk t.disk l a.nodes ∙ h)
                (ap some (
                  Appends-other s.disk t.disk a i λ e.
                    f suffix o.short
                      (sound.distinct l (tmp_at suffix k') i h (rw (k_eq, ← e) o.there))))
        ]);
    owns = λ v q c (k', l', y, z, ne, f, g) (l, sfx, (y', path'), r).
        let k_eq : k' ≡ k = ground arith in
        let l_eq : l' ≡ l = ground arith in
        (
          l,
          sfx,
          (y', path'),
          record {
            target = r.target;
            short = r.short;
            tmp = r.tmp;
            there = same_nodes s.disk t.disk (tmp_at sfx l) a.nodes ∙ r.there;
            written =
                Appends-other s.disk t.disk a v.file (λ e.
                  IsStaged-apart s.disk w v k l suffix sfx b c sound (λ h. ne (k_eq ∙ h ∙ sym l_eq))
                    o r
                    (sound.distinct (tmp_at suffix k) (tmp_at sfx l) v.file (rw (← e) o.there)
                      r.there))
                ∙ r.written;
            unfinished = r.unfinished;
          },
        );
  }

  pub write-Touches :
      (p b c : Bytes) (s : State) (w : StagedFile)
      → view.Good s
      → view.Owns s w p b
      → Touches view p s (write_all H root w c s).0
  unfolding write_all
  write-Touches p b c s w g o =
      let (x, a, h, z) = write_file-Appends w.file c s.disk in
      Appends-Touches p b x s (write_all H root w c s).0 w g o a

  pub write_owns :
      (p b c : Bytes) (s : State) (w : StagedFile)
      → view.Good s
      → view.Owns s w p b
      → (write_all H root w c s).1 ≡ ok tt
      → view.Owns (write_all H root w c s).0 w p (b ++ c)
  unfolding write_all
  write_owns p b c s w (sound, there) (k, suffix, at, o) done =
      let (x, a, h, z) = write_file-Appends w.file c s.disk in
      let e = (write_file w.file c s.disk).0 in
      (
        k,
        suffix,
        at,
        record {
          target = o.target;
          short = o.short;
          tmp = o.tmp;
          there = same_nodes s.disk e (tmp_at suffix k) a.nodes ∙ o.there;
          written =
              Appends-content s.disk e a (sound.in_range (tmp_at suffix k) w.file o.there)
              ∙ rw (o.written, h done) refl;
          unfinished = o.unfinished;
        },
      )
