-- ===== src/Storage/Filesystem/Closed.antt =====
-- What a client sees of the close of a staged file of storage/filesystem.
use btdt.Prelude.{
  ◌≡◌, refl, ◌∙◌, sym, ap, false, Option, none, some, [], arith, Bytes, get_or, inl, inr,
}
use btdt.Io.{ok, err-ok}
use btdt.Storage.Interface.{Touches}
use btdt.Storage.Filesystem.Paths.{PathBuf, trimmed, ends_in_dir}
use btdt.Storage.Filesystem.Canonical.{trimmed_same}
use btdt.Storage.Filesystem.Opened.{place}
use btdt.Storage.Filesystem.Disk.Sound.{locate}
use btdt.Storage.Filesystem.Places.{tmp_at}
use btdt.Storage.Filesystem.Staged.{StagedFile}
use btdt.Storage.Filesystem.Disk.{DiskState, Node, directory, special, regular, node_at}
use btdt.Storage.Filesystem.Disk.Names.{Location}
use btdt.Storage.Filesystem.Disk.Changes.{same_nodes, same_nodes-IsSound}
use btdt.Storage.Filesystem.View.{IsStaged, file_content, content_at, same_at}
use btdt.Storage.Filesystem.Appending.{view, IsStaged-apart}
use btdt.Storage.Filesystem.Closing.{close-cases}
use btdt.Storage.Filesystem.{Host, State, close, canonical_path}

-- Where the same stands at a place, and the files are the same, the content is the same.
pub same_content :
    (d e : DiskState) (l : Location)
    → node_at e l ≡ node_at d l
    → e.files ≡ d.files
    → content_at e (some l) ≡ content_at d (some l)
same_content d e l h g = rw h (of_node (node_at d l))
  where
    of_node : (n : Option Node) → file_content e n ≡ file_content d n
    of_node none = refl
    of_node (some directory) = refl
    of_node (some special) = refl
    of_node (some (regular i)) = ap (λ fs. some (get_or fs i [])) g

same-IsStaged :
    (d e : DiskState) (v : StagedFile) (l : Location) (t c : Bytes)
    → node_at e (tmp_at t l) ≡ node_at d (tmp_at t l)
    → e.files ≡ d.files
    → IsStaged d v l t c
    → IsStaged e v l t c
same-IsStaged d e v l t c h g o = record {
  target = o.target;
  short = o.short;
  tmp = o.tmp;
  there = h ∙ o.there;
  written = ap (λ fs. get_or fs v.file []) g ∙ o.written;
  unfinished = o.unfinished;
}

-- A path without the mark of a directory has the place of its file.
pub closed_place :
    (H : Host) (root : PathBuf) (path : Bytes) (p : PathBuf) (k : Location)
    → canonical_path H root path ≡ ok p
    → locate (trimmed p) ≡ some k
    → ends_in_dir p ≡ false
    → place H root path ≡ some k
unfolding place
closed_place H root path p k a h um = rw (place, a) (rw (trimmed_same p um) at h)

module _ (H : Host) (root : PathBuf) (base : Location) where
  pub close-Touches :
      (p b : Bytes) (s : State) (w : StagedFile)
      → (view H root base).Good s
      → (view H root base).Owns s w p b
      → Touches (view H root base) p s (close H root w s).0
  close-Touches p b s w (sound, there) (k, suffix, (at, path), o) =
      let d = s.disk in
      let e = (close H root w s).0.disk in
      elim (close-cases H root s w k suffix b sound o) [
        | inl (m, r, um) ↦ record {
          good = (
            m.sound,
            m.others base (λ h. (cc (sym (ap (node_at d) h ∙ there) ∙ o.there)))
                  (λ h. m.not_directory (ap (node_at d) h ∙ there))
                ∙ there,
          );
          content_eq = λ q (k', l, y, z, ne, f, g).
              let k_eq : k' ≡ k = ground arith in
              same_at H root q l d e z (
                same_content d e l
                  (m.others l (λ h. f suffix o.short (rw k_eq (sym h))) (λ h. ne (k_eq ∙ h)))
                  m.files);
          owns = λ v q c (k', l', y, z, ne, f, g) (l, sfx, (y', path'), r').
              let k_eq : k' ≡ k = ground arith in
              let l_eq : l' ≡ l = ground arith in
              (
                l,
                sfx,
                (y', path'),
                same-IsStaged d e v l sfx c
                    (m.others (tmp_at sfx l)
                      (IsStaged-apart H root base d w v k l suffix sfx b c sound
                        (λ h. ne (k_eq ∙ h ∙ sym l_eq)) o r')
                      (λ h. g sfx r'.short (k_eq ∙ (rw l_eq h))))
                    m.files r',
              );
        }
        | inr (st, x) ↦ record {
          good = (
            same_nodes-IsSound d e st.0 (rw st.1 (omega arith)) sound,
            same_nodes d e base st.0 ∙ there,
          );
          content_eq = λ q (k', l, y, z, ne, f, g).
              same_at H root q l d e z (same_content d e l (same_nodes d e l st.0) st.1);
          owns = λ v q c a (l, sfx, (y', path'), r'). (
            l,
            sfx,
            (y', path'),
            same-IsStaged d e v l sfx c (same_nodes d e (tmp_at sfx l) st.0) st.1 r',
          );
        }
      ]

  pub close_content :
      (p b : Bytes) (s : State) (w : StagedFile)
      → (view H root base).Good s
      → (view H root base).Owns s w p b
      → (close H root w s).1 ≡ ok tt
      → (view H root base).content (close H root w s).0 p ≡ some b
  close_content p b s w (sound, there) (k, suffix, (at, path), o) h =
      elim (close-cases H root s w k suffix b sound o) [
        | inl (m, r, um) ↦
            rw (closed_place H root p w.target_path k path o.target um, m.target)
              (ap some (ap (λ fs. get_or fs w.file []) m.files ∙ o.written))
        | inr (st, x) ↦ absurd (err-ok x.error tt (sym x.result ∙ h))
      ]
