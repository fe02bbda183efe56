-- ===== src/Pipeline.antt =====
-- pipeline.rs: a directory is archived into a cache, and unpacked from it.
pub mod Members
pub mod Tests
use btdt.Prelude.{Bool, true, false, Option, none, some, List, [], ◌∷◌, Bytes, same}
use btdt.Io.{
  Result, ok, err, ◌>>=◌, map_err, IoError, IoResult, IoPathError, IoPathResult, error_at,
  error_no_path, with_path, other,
}
use btdt.Cache.{CacheHit}

-- The `Cache` trait, as operations on an unknown state.
pub record CacheTrait : Type 1 where
  pub State : Type 0
  pub Reader : Type 0
  pub Writer : Type 0
  pub get : List Bytes → State → State × IoPathResult (Option (CacheHit Reader))
  pub set : List Bytes → State → State × IoPathResult Writer
  pub close : Writer → State → State × IoResult (Unit {0})

pub data FileType : Type 0 where
  is_dir is_symlink is_file is_other : FileType

-- An entry of the walk, and an error of it: with a path or without one.
pub record Entry : Type 0 where
  pub path : Bytes
  pub file_type : Option FileType

pub data WalkError : Type 0 where
  with_path_error : Bytes → IoError → WalkError
  plain_error : IoError → WalkError

-- The ignore and tar crates and std::fs. `walk` is what `WalkBuilder` is set up for in the source; a
-- builder holds the `BufWriter` over the cache's writer, to which it writes as it likes.
pub record Archives (C : CacheTrait) : Type 1 where
  pub Overrides : Type 0
  pub no_overrides : Overrides
  pub walk : Bytes → Overrides → List (Result Entry WalkError)
  pub strip_prefix : Bytes → Bytes → Option Bytes
  pub read_link : Bytes → IoResult Bytes
  pub File : Type 0
  pub open_file : Bytes → IoResult File
  pub Builder : Type 0
  pub new : C.Writer → Builder
  pub append_dir : Bytes → Bytes → Builder → C.State → (C.State × Builder) × IoResult (Unit {0})
  pub append_link : Bytes → Bytes → Builder → C.State → (C.State × Builder) × IoResult (Unit {0})
  pub append_file : Bytes → File → Builder → C.State → (C.State × Builder) × IoResult (Unit {0})
  pub finish : Builder → C.State → (C.State × Builder) × IoResult (Unit {0})
  pub into_inner : Builder → C.State → C.State × IoResult C.Writer
  pub unpack : C.Reader → Bytes → C.State → IoResult (Unit {0})

-- A call fails, or panics in `expect`.
pub data PipelineStop : Type 0 where
  failed : IoPathError → PipelineStop
  panicked : PipelineStop

module _ (C : CacheTrait) (A : Archives C) where
  open C use {State, Reader, Writer}
  open A use {Builder, Overrides}

  abbrev pub PipelineResult : Type 0 → Type 0
  PipelineResult T = Result T PipelineStop

  unfoldable pub restore : List Bytes → Bytes → State → State × PipelineResult (Option Bytes)
  restore keys destination s =
      let (s', r) = C.get keys s in
      elim r [
        | err e ↦ (s', err (failed e))
        | ok none ↦ (s', ok none)
        | ok (some hit) ↦ elim (A.unpack hit.reader destination s') [
          | err e ↦ (s', err (failed (error_at e destination)))
          | ok u ↦ (s', ok (some hit.key))
        ]
      ]

  -- What a step leaves, and its result.
  abbrev pub Step : Type 0
  Step = (State × Builder) × PipelineResult (Unit {0})

  abbrev pub located : Bytes → (State × Builder) × IoResult (Unit {0}) → Step
  located p (x, r) = (x, map_err (λ e. failed (error_at e p)) r)

  abbrev pub walk_error : WalkError → IoPathError
  walk_error (with_path_error p e) = error_at e p
  walk_error (plain_error e) = error_no_path e

  -- An entry by its type.
  unfoldable pub append : Bytes → Bytes → FileType → Builder → State → Step
  append archived p is_dir b s = located p (A.append_dir archived p b s)
  append archived p is_symlink b s = elim (A.read_link p) [
    | err e ↦ ((s, b), err (failed (error_at e p)))
    | ok target ↦ located p (A.append_link archived target b s)
  ]
  append archived p is_file b s = elim (A.open_file p) [
    | err e ↦ ((s, b), err (failed (error_at e p)))
    | ok file ↦ located p (A.append_file archived file b s)
  ]
  append archived p is_other b s = (
    (s, b),
    err (failed (error_at (record { kind = other; message = "Unsupported file type" }) p)),
  )

  unfoldable pub add_entry : Bytes → Result Entry WalkError → Builder → State → Step
  unfolding append same
  add_entry root (err e) b s = ((s, b), err (failed (walk_error e)))
  add_entry root (ok entry) b s = elim (same entry.path root) [
    | true ↦ ((s, b), ok tt)
    | false ↦ elim (A.strip_prefix root entry.path) [
      | none ↦ ((s, b), err panicked)
      | some archived ↦ elim entry.file_type [
        | none ↦ ((s, b), err panicked)
        | some t ↦ append archived entry.path t b s
      ]
    ]
  ]

  -- The loop of `add_dir_to_archive`
  unfoldable pub add_entries : Bytes → List (Result Entry WalkError) → Builder → State → Step
  unfolding add_entry
  add_entries root [] b s = ((s, b), ok tt)
  add_entries root (entry ∷ entries) b s =
      let ((s', b'), r) = add_entry root entry b s in
      elim r [ err e ↦ ((s', b'), err e) | ok u ↦ add_entries root entries b' s' ]

  unfoldable pub add_dir_to_archive : Bytes → Overrides → Builder → State → Step
  unfolding add_entries
  add_dir_to_archive root overrides b s = add_entries root (A.walk root overrides) b s

  -- `into_inner` and `close`
  unfoldable pub close_archive : Bytes → Builder → State → State × PipelineResult (Unit {0})
  close_archive source b s =
      let (s', r) = A.into_inner b s in
      elim r [
        | err e ↦ (s', err (failed (error_at e source)))
        | ok writer ↦
            let (s'', r') = C.close writer s' in (s'', map_err (λ e. failed (error_at e source)) r')
      ]

  abbrev pub finished : Bytes → Step → State × PipelineResult (Unit {0})
  finished source ((s, b), err e) = (s, err e)
  finished source ((s, b), ok u) = close_archive source b s

  -- The archive is finished if all was added.
  abbrev pub finish_after : Bytes → Step → Step
  finish_after source ((s, b), err e) = ((s, b), err e)
  finish_after source ((s, b), ok u) = located source (A.finish b s)

  unfoldable pub store_with_overrides :
      List Bytes → Bytes → Overrides → State → State × PipelineResult (Unit {0})
  unfolding add_dir_to_archive close_archive
  store_with_overrides keys source overrides s =
      let (s', r) = C.set keys s in
      elim r [
        | err e ↦ (s', err (failed e))
        | ok writer ↦
            finished source
              (finish_after source (add_dir_to_archive source overrides (A.new writer) s'))
      ]

  unfoldable pub store : List Bytes → Bytes → State → State × PipelineResult (Unit {0})
  unfolding store_with_overrides
  store keys source s = store_with_overrides keys source A.no_overrides s
