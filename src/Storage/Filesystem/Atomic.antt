-- ===== src/Storage/Filesystem/Atomic.antt =====
-- The file under a path of storage/filesystem is replaced at once, when its writer is closed or dropped.
use btdt.Prelude.{
  ℕ, ◌≡◌, ◌≢◌, refl, ◌∙◌, sym, ap, false, Option, some, List, [], Bytes, concat, length, inl, inr,
  ◌⊎◌,
}
use btdt.Io.{ok, IoResult}
use btdt.Storage.Filesystem.Paths.{PathBuf}
use btdt.Storage.Filesystem.Places.{tmp_at, tmp_at_ne}
use btdt.Storage.Filesystem.Staged
use btdt.Storage.Filesystem.Staged.{StagedFile, finalize, release, is_err}
use btdt.Storage.Filesystem.Disk.{DiskState, Node, directory, regular, node_at}
use btdt.Storage.Filesystem.Disk.Names.{Location}
use btdt.Storage.Filesystem.Disk.Sound.{locate}
use btdt.Storage.Filesystem.Disk.Changes.{same_nodes}
use btdt.Storage.Filesystem.Opened.{place}
use btdt.Storage.Filesystem.View.{IsStaged, content_at, same_at}
use btdt.Storage.Filesystem.Writing.{put_owns, put-Touches}
use btdt.Storage.Filesystem.Appending.{IsPrefix, view}
use btdt.Storage.Filesystem.Closing.{close-cases, HasError}
use btdt.Storage.Filesystem.Closed.{same_content, close_content}
use btdt.Storage.Filesystem.Staging.{write_each, write_each-Writes, put-content}
use btdt.Storage.Filesystem.{Host, State, put, close, drop_writer}

-- A writer that is dropped without a close does what a close does, and panics where that fails.
pub drop-eq-close :
    (w : StagedFile) (d : DiskState)
    → w.finalized ≡ false
    → Staged.drop w d ≡ ((Staged.close w d).0, is_err (Staged.close w d).1)
unfolding Staged.drop Staged.close finalize
drop-eq-close w d h = rw (Staged.drop, h) refl

module _ (H : Host) (root : PathBuf) where
  IsStaged-some :
      (d : DiskState) (w : StagedFile) (k : Location) (suffix b : Bytes)
      → IsStaged d w k suffix b
      → k ≢ []
  unfolding tmp_at node_at
  IsStaged-some d w k suffix b o h =
      root_file (ap (node_at d) (ap (tmp_at suffix) (sym h)) ∙ o.there)
    where
      root_file : ◌≡◌ {A = Option Node} (some directory) (some (regular w.file)) → ⊥
      root_file e = cc e

  -- How a file was replaced: by the buffers, or by a beginning of them if a write has failed, or not at
  -- all.
  pub record IsReplaced (p goal : Bytes) (before between after : State)
      (written closed : IoResult (Unit {0})) : Type 0 where
    pub unseen : content_at between.disk (place H root p) ≡ content_at before.disk (place H root p)
    pub outcome :
        ((c : Bytes) × (closed ≡ ok tt)
          × (content_at after.disk (place H root p) ≡ some c)
          × ((c ≡ goal) ⊎ (HasError written))
          × IsPrefix c goal)
        ⊎ (HasError closed
            × (content_at after.disk (place H root p) ≡ content_at before.disk (place H root p)))

  -- In a sound file system where the absolute root of the storage is a directory, and with suffixes of
  -- seven bytes: the content under a path does not change by a `put` that succeeds and the writes that
  -- follow. The close that comes then replaces it by all of the buffers, one after the other, or, if a write
  -- has failed, by a beginning of that; or it fails and leaves the content as it was before the `put`.
  pub write_each-IsReplaced :
      (base : Location) (p : Bytes) (bufs : List Bytes) (s : State) (w : StagedFile)
      → locate root ≡ some base
      → ((n : ℕ) → length (H.suffix_at n) ≡ 7)
      → (view H root base).Good s
      → (put H root p s).1 ≡ ok w
      → IsReplaced p
          (concat bufs)
          s
          (write_each H root w bufs (put H root p s).0).0
          (close H root w (write_each H root w bufs (put H root p s).0).0).0
          (write_each H root w bufs (put H root p s).0).1
          (close H root w (write_each H root w bufs (put H root p s).0).0).1
  write_each-IsReplaced base p bufs s w absolute short g h =
      let t = (put H root p s).0 in
      let (k, suffix, (at, path), o) = put_owns H root base short p s w absolute g h in
      let some_name : k ≢ [] = IsStaged-some t.disk w k suffix [] o in
      let ne : tmp_at suffix k ≢ k = tmp_at_ne suffix k some_name in
      let ws =
        write_each-Writes H root base k p w suffix [] bufs t at path
          (put-Touches H root base short p s g).good o ne in
      let u = (write_each H root w bufs t).0 in
      let unseen = ws.same ∙ put-content H root p k s g.0 at some_name in
      let e = (close H root w u).0.disk in
      record {
        unseen = same_at H root p k s.disk u.disk at unseen;
        outcome = elim (close-cases H root u w k suffix ws.written ws.good.0 ws.staged) [
          | inl (m, r, um) ↦ inl (
            ws.written,
            r,
            close_content H root base p ws.written u w ws.good (k, suffix, (at, path), ws.staged) r,
            ws.whole,
            ws.prefix,
          )
          | inr (st, x) ↦ inr (
            x,
            same_at H root p k s.disk e at
                (same_content u.disk e k (same_nodes u.disk e k st.0) st.1 ∙ unseen),
          )
        ];
      }

  -- In a sound file system where the absolute root of the storage is a directory, and with suffixes of seven
  -- bytes: if a writer is dropped without a close after its writes, of which one may
  -- have failed, then the content does not change before the drop, and the drop replaces it by all of the
  -- buffers, one after the other, or, if a write has failed, by a beginning of that, or else it panics and
  -- leaves the content.
  pub drop-IsReplaced :
      (base : Location) (p : Bytes) (bufs : List Bytes) (s : State) (w : StagedFile)
      → locate root ≡ some base
      → ((n : ℕ) → length (H.suffix_at n) ≡ 7)
      → (view H root base).Good s
      → (put H root p s).1 ≡ ok w
      → (r : IoResult (Unit {0})) × (IsReplaced p
          (concat bufs)
          s
          (write_each H root w bufs (put H root p s).0).0
          (drop_writer H root w (write_each H root w bufs (put H root p s).0).0).0
          (write_each H root w bufs (put H root p s).0).1
          r)
        × ((drop_writer H root w (write_each H root w bufs (put H root p s).0).0).1 ≡ is_err r)
  unfolding drop_writer close
  drop-IsReplaced base p bufs s w absolute short g h =
      let u = (write_each H root w bufs (put H root p s).0).0 in
      let (k, suffix, at, o) = put_owns H root base short p s w absolute g h in
      let e = drop-eq-close w u.disk o.unfinished in
      (
        (close H root w u).1,
        rw e (write_each-IsReplaced base p bufs s w absolute short g h),
        ap (λ x. x.1) e,
      )
