-- ===== src/Storage/Filesystem/Staging.antt =====
-- Until its writer is closed, the content under a path of storage/filesystem is what it was.
use btdt.Prelude.{
  ◌≡◌, ◌≢◌, refl, ◌∙◌, sym, ap, some, List, [], ◌∷◌, ◌++◌, arith, Bytes, concat, Option-cases, inl,
  inr, ◌⊎◌,
}
use mathlib.Core.List.{append-nil, append_assoc}
use btdt.Io.{Result-cases, ok, err, err-ok, IoResult}
use btdt.Storage.Filesystem.Paths.{PathBuf}
use btdt.Storage.Filesystem.Places.{tmp_at, tmp_at_ne}
use btdt.Storage.Filesystem.Staged.{StagedFile}
use btdt.Storage.Filesystem.Disk.{directory, special, regular, node_at, write_file}
use btdt.Storage.Filesystem.Disk.Names.{Location}
use btdt.Storage.Filesystem.Disk.Sound.{IsSound}
use btdt.Storage.Filesystem.Disk.Changes.{same_nodes}
use btdt.Storage.Filesystem.Opened.{base_place}
use btdt.Storage.Filesystem.View.{IsStaged, content_at}
use btdt.Storage.Filesystem.Writing.{put-Adds}
use btdt.Storage.Filesystem.Appending.{
  Appends-content, IsPrefix, Appends-other, write_file-Appends, write-Touches, view,
}
use btdt.Storage.Filesystem.Closing.{HasError}
use btdt.Storage.Filesystem.{Host, State, put, write_all, canonical_path}

module _ (H : Host) (root : PathBuf) where
  -- The buffers are written until one fails.
  unfoldable pub write_each : StagedFile → List Bytes → State → State × IoResult (Unit {0})
  unfolding write_all
  write_each w [] s = (s, ok tt)
  write_each w (c ∷ cs) s =
      let (s', r) = write_all H root w c s in
      elim r [ ok u ↦ write_each w cs s' | err e ↦ (s', err e) ]

  -- To write to a temporary file changes the content of no other place.
  write_all-content :
      (w : StagedFile) (k l : Location) (suffix b c : Bytes) (s : State)
      → IsSound s.disk
      → IsStaged s.disk w k suffix b
      → tmp_at suffix k ≢ l
      → content_at (write_all H root w c s).0.disk (some l) ≡ content_at s.disk (some l)
  unfolding write_all
  write_all-content w k l suffix b c s sound o ne =
      let (x, a, h, z) = write_file-Appends w.file c s.disk in
      let e = (write_all H root w c s).0.disk in
      elim (Option-cases (node_at s.disk l)) [
        | inl g ↦ rw (g, same_nodes s.disk e l a.nodes ∙ g) refl
        | inr (directory, g) ↦ rw (g, same_nodes s.disk e l a.nodes ∙ g) refl
        | inr (special, g) ↦ rw (g, same_nodes s.disk e l a.nodes ∙ g) refl
        | inr (regular i, g) ↦
            rw (g, same_nodes s.disk e l a.nodes ∙ g)
              (ap some (
                Appends-other s.disk e a i
                  λ f. ne (sound.distinct (tmp_at suffix k) l i (rw (← f) o.there) g)))
      ]

  pub put-content :
      (p : Bytes) (k : Location) (s : State)
      → IsSound s.disk
      → base_place H root p ≡ some k
      → k ≢ []
      → content_at (put H root p s).0.disk (some k) ≡ content_at s.disk (some k)
  put-content p k s sound at some_name =
      let a = put-Adds H root p s sound in
      let e = (put H root p s).0.disk in
      elim (Option-cases (node_at s.disk k)) [
        | inr (directory, h) ↦ rw (h, a.kept k directory h) refl
        | inr (special, h) ↦ rw (h, a.kept k special h) refl
        | inr (regular i, h) ↦
            rw (h, a.kept k (regular i) h) (ap some (a.contents i (sound.in_range k i h)))
        | inl h ↦ elim (Option-cases (node_at e k)) [
          | inl g ↦ rw (h, g) refl
          | inr (directory, g) ↦ rw (h, g) refl
          | inr (special, g) ↦ rw (h, g) refl
          | inr (regular i, g) ↦ elim (a.added k i g) [
            | inl z ↦ absurd (ground arith)
            | inr z ↦ absurd (tmp_at_ne (H.suffix_at s.rng) k some_name (sym (z k at)))
          ]
        ]
      ]

  -- Also a write that fails leaves the file of the writer in its place.
  write_all-IsStaged :
      (w : StagedFile) (k : Location) (suffix b c : Bytes) (s : State)
      → IsSound s.disk
      → IsStaged s.disk w k suffix b
      → (x : Bytes) × (IsStaged (write_all H root w c s).0.disk w k suffix (b ++ x))
        × ((x ≡ c) ⊎ HasError (write_all H root w c s).1)
        × IsPrefix x c
  unfolding write_all
  write_all-IsStaged w k suffix b c s sound o =
      let (x, a, h, z) = write_file-Appends w.file c s.disk in
      let e = (write_all H root w c s).0.disk in
      (
        x,
        record {
          target = o.target;
          short = o.short;
          tmp = o.tmp;
          there = same_nodes s.disk e (tmp_at suffix k) a.nodes ∙ o.there;
          written =
              Appends-content s.disk e a (sound.in_range (tmp_at suffix k) w.file o.there)
              ∙ ap (λ y. y ++ x) o.written;
          unfinished = o.unfinished;
        },
        elim (Result-cases (write_file w.file c s.disk).1) [
          | inl (tt, f) ↦ inl (h f)
          | inr (y, f) ↦ inr (record { error = y; result = f })
        ],
        z,
      )

  longer : (b x c more : Bytes) → IsPrefix x c → IsPrefix (b ++ x) (b ++ (c ++ more))
  longer b x c more (rest, e) = (
    rest ++ more,
    append_assoc b x (rest ++ more)
        ∙ ap (λ y. b ++ y) (sym (append_assoc x rest more) ∙ ap (λ y. y ++ more) e),
  )

  -- A writer that is open for the path, with what was written so far or an error
  pub record Writes (base k : Location) (w : StagedFile) (suffix goal : Bytes) (s t : State)
      (r : IoResult (Unit {0})) : Type 0 where
    pub good : (view H root base).Good t
    pub written : Bytes
    pub staged : IsStaged t.disk w k suffix written
    pub same : content_at t.disk (some k) ≡ content_at s.disk (some k)
    pub whole : (written ≡ goal) ⊎ (HasError r)
    pub prefix : IsPrefix written goal

  pub write_each-Writes :
      (base k : Location) (p : Bytes) (w : StagedFile) (suffix b : Bytes) (bufs : List Bytes)
      (s : State)
      → base_place H root p ≡ some k
      → canonical_path H root p ≡ ok w.target_path
      → (view H root base).Good s
      → IsStaged s.disk w k suffix b
      → tmp_at suffix k ≢ k
      → Writes base k w suffix (b ++ concat bufs) s (write_each w bufs s).0 (write_each w bufs s).1
  unfolding write_each
  write_each-Writes base k p w suffix b [] s at path g o ne = record {
    good = g;
    written = b;
    staged = o;
    same = refl;
    whole = inl (sym (append-nil b));
    prefix = ([], refl);
  }
  write_each-Writes base k p w suffix b (c ∷ cs) s at path g o ne =
      let t = (write_all H root w c s).0 in
      let good = (write-Touches H root base p b c s w g (k, suffix, (at, path), o)).good in
      let same = write_all-content w k k suffix b c s g.0 o ne in
      let staged = write_all-IsStaged w k suffix b c s g.0 o in
      elim (Result-cases (write_all H root w c s).1) [
        | inl (tt, e) ↦
            let rest =
              write_each-Writes base k p w suffix (b ++ staged.0) cs t at path good staged.1 ne in
            rw (write_each, e)
              (record {
                good = rest.good;
                written = rest.written;
                staged = rest.staged;
                same = rest.same ∙ same;
                whole = elim rest.whole [
                  | inr x ↦ inr x
                  | inl x ↦ elim staged.2 [
                    | inl y ↦ inl (x ∙ rw y (append_assoc b c (concat cs)))
                    | inr y ↦ absurd (err-ok y.error tt (sym y.result ∙ e))
                  ]
                ];
                prefix = elim staged.2 [
                  | inl y ↦ (rest.prefix.0, rest.prefix.1 ∙ rw y (append_assoc b c (concat cs)))
                  | inr y ↦ absurd (err-ok y.error tt (sym y.result ∙ e))
                ];
              })
        | inr (x, e) ↦
            rw (write_each, e)
              (record {
                good = good;
                written = b ++ staged.0;
                staged = staged.1;
                same = same;
                whole = inr (record { error = x; result = refl });
                prefix = longer b staged.0 c (concat cs) staged.3;
              })
      ]
