-- ===== src/Storage/Filesystem/Writing.antt =====
-- `put` and `write` of storage/filesystem touch one path alone, and no content that was there.
use btdt.Prelude.{ℕ, ◌≡◌, ◌∙◌, sym, ap, some, [], Bytes, length, inl, inr}
use btdt.Io.{Result-cases, ok, err-ok}
use btdt.Storage.Interface.{Touches}
use btdt.Storage.Filesystem.Paths.{PathBuf, trimmed}
use btdt.Storage.Filesystem.Places.{tmp_at}
use btdt.Storage.Filesystem.Staged.{StagedFile}
use btdt.Storage.Filesystem.Disk.{DiskState}
use btdt.Storage.Filesystem.Disk.Names.{Location}
use btdt.Storage.Filesystem.Disk.Sound.{IsSound, locate}
use btdt.Storage.Filesystem.Disk.Adds.{Adds, Adds-trans, refl-Adds}
use btdt.Storage.Filesystem.Put.{make_parents-Adds}
use btdt.Storage.Filesystem.Opened.{
  base_place, Beside, new_with_suffix-Adds, new_with_suffix_ok, place_some,
}
use btdt.Storage.Filesystem.View.{filesystem_view, Adds-Touches}
use btdt.Storage.Filesystem.{Host, State, canonical_path, make_parents, put, at_path}

module _ (H : Host) (root : PathBuf) where
  abbrev MayAdd : Bytes → Bytes → Location → Type 0
  MayAdd path suffix l = (k : Location) → base_place H root path ≡ some k → l ≡ tmp_at suffix k

  pub put-Adds :
      (path : Bytes) (s : State)
      → IsSound s.disk
      → Adds (MayAdd path (H.suffix_at s.rng)) s.disk (put H root path s).0.disk
  unfolding put base_place
  put-Adds path s sound = elim (Result-cases (canonical_path H root path)) [
    | inr (x, a) ↦ rw (put, at_path, a) (refl-Adds s.disk sound)
    | inl (p, a) ↦
        let May = MayAdd path (H.suffix_at s.rng) in
        let made : Adds May s.disk (make_parents H root p s.disk).0 =
          make_parents-Adds H root p s.disk sound in
        elim (Result-cases (make_parents H root p s.disk).1) [
          | inr (x, b) ↦ rw (put, at_path, a, b) made
          | inl (u, b) ↦
              let opened =
                new_with_suffix-Adds H.locking p (H.suffix_at s.rng)
                  (make_parents H root p s.disk).0 made.sound in
              rw (put, at_path, a, b) (Adds-trans made (weaken p a opened))
        ]
  ]
    where
      weaken :
          {d e : DiskState} (p : PathBuf)
          → canonical_path H root path ≡ ok p
          → Adds (Beside p (H.suffix_at s.rng)) d e
          → Adds (MayAdd path (H.suffix_at s.rng)) d e
      weaken p a x = record {
        sound = x.sound;
        kept = x.kept;
        added = λ l i h. elim (x.added l i h) [
          | inl g ↦ inl g
          | inr g ↦ inr (λ k e. g k ((rw (base_place, a) at e)))
        ];
        contents = x.contents;
        longer = x.longer;
      }

  module _ (base : Location) (short : (n : ℕ) → length (H.suffix_at n) ≡ 7) where
    pub put-Touches :
        (p : Bytes) (s : State)
        → (filesystem_view H root base).Good s
        → Touches (filesystem_view H root base) p s (put H root p s).0
    put-Touches p s g =
        Adds-Touches H root base p (H.suffix_at s.rng) s (put H root p s).0 (short s.rng) g
          (put-Adds p s g.0)

    pub put_owns :
        (p : Bytes) (s : State) (w : StagedFile)
        → locate root ≡ some base
        → (filesystem_view H root base).Good s
        → (put H root p s).1 ≡ ok w
        → (filesystem_view H root base).Owns (put H root p s).0 w p []
    unfolding put base_place
    put_owns path s w absolute (sound, there) h = elim (Result-cases (canonical_path H root path)) [
      | inr (x, a) ↦ absurd (err-ok _ _ (rw (put, at_path, a) at h))
      | inl (p, a) ↦ elim (Result-cases (make_parents H root p s.disk).1) [
        | inr (x, b) ↦ absurd (err-ok _ _ (rw (put, at_path, a, b) at h))
        | inl (tt, b) ↦
            let d = (make_parents H root p s.disk).0 in
            let suffix = H.suffix_at s.rng in
            let (n, f, opened) =
              new_with_suffix_ok H.locking p suffix d w (rw (put, at_path, a, b) at h) in
            let (k, e) = place_some H root base absolute path p n s.disk sound there a f b in
            let (tmp, at, fresh) = opened k e in
            rw (put, at_path, a, b)
              (
                k,
                suffix,
                (e, ap ok (sym fresh.target_eq)),
                record {
                  target = ap (λ q. locate (trimmed q)) fresh.target_eq ∙ e;
                  short = short s.rng;
                  tmp = ap locate fresh.tmp_eq ∙ at;
                  there = fresh.there;
                  written = fresh.empty;
                  unfinished = fresh.unfinished;
                },
              )
      ]
    ]
