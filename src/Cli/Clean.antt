-- ===== src/Cli/Clean.antt =====
-- btdt-cli/src/main.rs: the command `clean`.
use btdt.Prelude.{ℕ, Option, none, some, ◌≡◌, ◌≢◌, ◌∙◌, ap, arith, inl, inr, refl, Option-cases}
use btdt.Io.{Result, ok, err, map_err, IoError, Result-cases}
use btdt.Cache.Externals.{Externals}
use btdt.Cache.Local.{World}
use btdt.Cache.Local.Clean
use btdt.Cache.Local.Clean.{CleanStop, out_of_fuel}
use btdt.Cache.Local.Clean.Outcome.{clean-ends}
use btdt.Cache.Remote.{Tokens}
use btdt.Util.Http.Network.{Urls, Network}
use btdt.Storage.Filesystem.{Host}
use btdt.Storage.Filesystem.Paths.{PathBuf, components}
use btdt.Storage.Filesystem.View.{filesystem}
use btdt.Storage.Filesystem.Leftovers.{clean_leftover_tmp_files}
use btdt.Prelude.{[]}
use btdt.Storage.Filesystem.Cleaned.{clean_leftover_tmp_files-kept}
use btdt.Storage.Filesystem.Disk.{node_at, directory}
use btdt.Cli.Command.{CacheRef, Failure, Machine, ChosenCache, to_cache}

pub data CleanFailure : Type 0 where
  not_opened : Failure → CleanFailure
  age_out_of_range : CleanFailure
  stopped : CleanStop → CleanFailure
  left_over : IoError → CleanFailure

module _ (H : Host) (X : Externals) where
  abbrev pub Store : PathBuf → Type 0
  Store root = World (filesystem H root) X

  -- `into_storage` and `clean_leftover_tmp_files`
  unfoldable pub clean_leftovers :
      (root : PathBuf) → Store root → Option (Store root × Result (Unit {0}) CleanFailure)
  unfolding clean_leftover_tmp_files
  clean_leftovers root w = elim (clean_leftover_tmp_files H.locking root w.storage.disk) [
    | none ↦ none
    | some (d, r) ↦ some (record w { storage = record w.storage { disk = d } }, map_err left_over r)
  ]

  unfoldable pub clean_local :
      (root : PathBuf)
      → Option X.TimeDelta
      → Option ℕ
      → Store root
      → Option (Store root × Result (Unit {0}) CleanFailure)
  unfolding Clean.clean clean_leftovers
  clean_local root age max w =
      let (w', r) = Clean.clean (filesystem H root) X age max w in
      elim r [ err e ↦ some (w', err (stopped e)) | ok u ↦ clean_leftovers root w' ]

  -- `TimeDelta::from_std` of an age that is given
  abbrev pub age_of :
      {D : Type 0} → (D → Option X.TimeDelta) → Option D → Option (Option X.TimeDelta)
  age_of from_std none = some none
  age_of from_std (some age) = elim (from_std age) [ none ↦ none | some a ↦ some (some a) ]

  module _ (U : Urls) (N : Network) (T : Tokens) (M : Machine U N T) where
    -- What a cache in a directory is like when it is opened; a remote cache is not cleaned.
    unfoldable pub clean :
        {D : Type 0} (from_std : D → Option X.TimeDelta)
        → ((root : PathBuf) → Store root)
        → CacheRef
        → Option D
        → Option ℕ
        → Option ((root : PathBuf) × Store root) × Option (Result (Unit {0}) CleanFailure)
    unfolding to_cache clean_local components
    clean from_std opened c age max = elim (to_cache U N T M c) [
      | err e ↦ (none, some (err (not_opened e)))
      | ok (ChosenCache.remote r) ↦ (none, some (ok tt))
      | ok (ChosenCache.filesystem path) ↦ elim (age_of from_std age) [
        | none ↦ (none, some (err age_out_of_range))
        | some a ↦ elim (clean_local (components path) a max (opened (components path))) [
          | none ↦ (none, none)
          | some (w, r) ↦ (some (components path, w), some r)
        ]
      ]
    ]

-- The result is not that the loop over the heap has not come to its end.
abbrev pub HasEnded : Result (Unit {0}) CleanFailure → Type 0
HasEnded r = r ≢ err (stopped out_of_fuel)

module _ (H : Host) (X : Externals) where
  left_over-HasEnded : (r : Result (Unit {0}) IoError) → HasEnded (map_err left_over r)
  left_over-HasEnded (ok u) h = absurd (ground arith)
  left_over-HasEnded (err e) h = absurd (ground arith)

  clean_leftovers-some :
      (root : PathBuf) (w : Store H X root)
      → (o : Store H X root × Result (Unit {0}) CleanFailure) × (clean_leftovers H X root w
          ≡ some o)
        × HasEnded o.1
  unfolding clean_leftovers node_at
  clean_leftovers-some root w =
      let (d, r, e, f) =
        clean_leftover_tmp_files-kept H.locking root w.storage.disk [] directory refl tt in
      (
        (record w { storage = record w.storage { disk = d } }, map_err left_over r),
        rw (clean_leftovers, e) refl,
        left_over-HasEnded r,
      )

  clean_local-some :
      (root : PathBuf) (age : Option X.TimeDelta) (max : Option ℕ) (w : Store H X root)
      → (o : Store H X root × Result (Unit {0}) CleanFailure) × (clean_local H X root age max w
          ≡ some o)
        × HasEnded o.1
  unfolding clean_local
  clean_local-some root age max w =
      let x = Clean.clean (filesystem H root) X age max w in
      elim (Result-cases x.1) [
        | inr (e, a) ↦ (
          (x.0, err (stopped e)),
          rw (clean_local, a) refl,
          λ h.
              clean-ends (filesystem H root) X age max w (a ∙ ap err (stopped-inj e out_of_fuel h)),
        )
        | inl (u, a) ↦
            let (o, b, c) = clean_leftovers-some root x.0 in (o, rw (clean_local, a) b, c)
      ]
    where
      stopped-inj :
          (a b : CleanStop)
          → ◌≡◌ {A = Result (Unit {0}) CleanFailure} (err (stopped a)) (err (stopped b))
          → a ≡ b
      stopped-inj a b h = ground arith

  -- The command `clean` ends on whatever cache: it has a result, which may be a failure or a panic, and
  -- both the loop over the heap and the walk over the temporary files have come to their end.
  pub clean-some :
      (U : Urls) (N : Network) (T : Tokens) (M : Machine U N T) {D : Type 0}
      (from_std : D → Option X.TimeDelta) (opened : (root : PathBuf) → Store H X root)
      (c : CacheRef) (age : Option D) (max : Option ℕ)
      → (r : Result (Unit {0}) CleanFailure) × ((clean H X U N T M from_std opened c age max).1
          ≡ some r)
        × HasEnded r
  unfolding clean
  clean-some U N T M from_std opened c age max = elim (Result-cases (to_cache U N T M c)) [
    | inr (e, a) ↦ (err (not_opened e), rw (clean, a) refl, λ h. absurd (ground arith))
    | inl (ChosenCache.remote r, a) ↦ (ok tt, rw (clean, a) refl, λ h. absurd (ground arith))
    | inl (ChosenCache.filesystem path, a) ↦ elim (Option-cases (age_of H X from_std age)) [
      | inl b ↦ (err age_out_of_range, rw (clean, a, b) refl, λ h. absurd (ground arith))
      | inr (d, b) ↦
          let (o, f, g) = clean_local-some (components path) d max (opened (components path)) in
          (o.1, rw (clean, a, b, f) refl, g)
    ]
  ]
