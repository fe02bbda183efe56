-- ===== src/Server/Cleanup.antt =====
-- btdt-server/src/main.rs: the task that cleans the caches of the server.
use btdt.Cache.Dispatcher.Numbered.{put_at}
use btdt.Prelude.{
  ℕ, ◌-◌, ◌≤◌, ◌+◌, Bool, true, false, Option, none, some, List, [], ◌∷◌, ltb, arith, Bool-cases,
  inl, inr,
}
use btdt.Io.{Result, ok, err, ◌>>=◌, map_err}
use btdt.Storage.InMemory.Implements.{memory}
use btdt.Cache.Dispatcher.{Backends, CacheDispatcher, Worlds}
use btdt.Cache.Local.Clean
use btdt.Cache.Local.Clean.Gather.{failed, panicked}
use btdt.Cache.Local.Clean.{CleanStop, stopped, out_of_fuel}
use btdt.Util.HumanBytes.{ParserError, parse_bytes_from_str}

-- `CleanupConfig`; texts as their code points
pub record CleanupConfig : Type 0 where
  pub interval : List ℕ
  pub cache_expiration : List ℕ
  pub max_cache_size : List ℕ

pub data ConfigError : Type 0 where
  duration_invalid age_out_of_range : ConfigError
  size_invalid : ParserError → ConfigError

-- What the thread sees in a turn of its loop: whether it was aborted, and when it looked at the clock,
-- after it was woken up and after the cleaning.
pub record Turn : Type 0 where
  pub aborted : Bool
  pub woken : ℕ
  pub cleaned : ℕ

module _ (B : Backends) where
  open B use {disk, externals}

  pub record CleanupTask : Type 0 where
    pub caches : List (CacheDispatcher B)
    pub cleanup_interval : ℕ
    pub cache_expiration : externals.TimeDelta
    pub max_cache_size : ℕ

  -- humantime's `parse_duration` and `TimeDelta::from_std`
  unfoldable pub new :
      (List ℕ → Option ℕ)
      → (ℕ → Option externals.TimeDelta)
      → List (CacheDispatcher B)
      → CleanupConfig
      → Result CleanupTask ConfigError
  unfolding parse_bytes_from_str
  new parse_duration from_std caches settings = elim (parse_duration settings.interval) [
    | none ↦ err duration_invalid
    | some interval ↦ elim (parse_duration settings.cache_expiration) [
      | none ↦ err duration_invalid
      | some age ↦ elim (from_std age) [
        | none ↦ err age_out_of_range
        | some expiration ↦
            map_err size_invalid (parse_bytes_from_str settings.max_cache_size) >>= λ size.
            ok (record {
              caches = caches;
              cleanup_interval = interval;
              cache_expiration = expiration;
              max_cache_size = size;
            })
      ]
    ]
  ]

  -- `clean_cache`; a remote cache is not cleaned.
  unfoldable pub clean_cache :
      CacheDispatcher B
      → externals.TimeDelta
      → ℕ
      → Worlds B
      → Worlds B × Result (Unit {0}) CleanStop
  unfolding Clean.clean put_at
  clean_cache (CacheDispatcher.in_memory i) age max w =
      let (s, r) = Clean.clean memory externals (some age) (some max) (w.in_memory i) in
      (record w { in_memory = put_at i s w.in_memory }, r)
  clean_cache (CacheDispatcher.filesystem i) age max w =
      let (s, r) = Clean.clean disk externals (some age) (some max) (w.filesystem i) in
      (record w { filesystem = put_at i s w.filesystem }, r)
  clean_cache (CacheDispatcher.remote r) age max w = (w, ok tt)

  -- The loop over the caches, with whether it ended in a panic; an error is printed.
  unfoldable pub clean_all :
      externals.TimeDelta → ℕ → List (CacheDispatcher B) → Worlds B → Worlds B × Bool
  unfolding clean_cache
  clean_all age max [] w = (w, false)
  clean_all age max (c ∷ cs) w =
      let (w', r) = clean_cache c age max w in
      elim r [
        | ok u ↦ clean_all age max cs w'
        | err (stopped (failed e)) ↦ clean_all age max cs w'
        | err (stopped panicked) ↦ (w', true)
        | err out_of_fuel ↦ (w', true)
      ]

  -- The loop of the thread, from when it has parked, with the moments at which the caches were cleaned
  unfoldable pub run : CleanupTask → List Turn → ℕ → Worlds B → Worlds B × List ℕ
  unfolding clean_all
  run task [] parked_since w = (w, [])
  run task (o ∷ turns) parked_since w = elim o.aborted [
    | true ↦ (w, [])
    | false ↦ elim (ltb (o.woken - parked_since) task.cleanup_interval) [
      | true ↦ run task turns parked_since w
      | false ↦
          let (w', p) = clean_all task.cache_expiration task.max_cache_size task.caches w in
          elim p [
            | true ↦ (w', o.woken ∷ [])
            | false ↦ let (w'', times) = run task turns o.cleaned w' in (w'', o.woken ∷ times)
          ]
    ]
  ]

  -- Every moment is the interval or more after the one before.
  abbrev pub Spaced : ℕ → ℕ → List ℕ → Type 0
  Spaced interval since [] = Unit
  Spaced interval since (t ∷ times) = (since + interval ≤ t) × Spaced interval t times

  -- The moments of the turns come one after the other.
  abbrev pub InOrder : ℕ → List Turn → Type 0
  InOrder since [] = Unit
  InOrder since (o ∷ turns) = (since ≤ o.woken) × (o.woken ≤ o.cleaned) × InOrder o.cleaned turns

  InOrder-le : (s t : ℕ) (turns : List Turn) → s ≤ t → InOrder t turns → InOrder s turns
  InOrder-le s t [] le h = tt
  InOrder-le s t (o ∷ turns) le (a, b, c) = (omega arith, b, c)

  Spaced-le :
      (interval s t : ℕ) (times : List ℕ)
      → s ≤ t
      → Spaced interval t times
      → Spaced interval s times
  Spaced-le interval s t [] le h = tt
  Spaced-le interval s t (x ∷ times) le (a, b) = (omega arith, b)

  -- However often the thread is woken up, it cleans for the first time when the interval has passed since
  -- it has parked, and from one cleaning to the next the interval passes as well, as long as its clock does
  -- not go back.
  pub run-Spaced :
      (task : CleanupTask) (turns : List Turn) (since : ℕ) (w : Worlds B)
      → InOrder since turns
      → Spaced task.cleanup_interval since (run task turns since w).1
  unfolding run
  run-Spaced task [] since w h = tt
  run-Spaced task (o ∷ turns) since w (a, b, c) = elim (Bool-cases o.aborted) [
    | inl d ↦ rw (run, d) tt
    | inr d ↦ elim (Bool-cases (ltb (o.woken - since) task.cleanup_interval)) [
      | inl e ↦
          rw (run, d, e)
            (run-Spaced task turns since w (InOrder-le since o.cleaned turns (omega arith) c))
      | inr e ↦
          let x = clean_all task.cache_expiration task.max_cache_size task.caches w in
          let late : since + task.cleanup_interval ≤ o.woken = ground arith in
          elim (Bool-cases x.1) [
            | inl f ↦ rw (run, d, e, f) (late, tt)
            | inr f ↦
                rw (run, d, e, f)
                  (
                    late,
                    Spaced-le task.cleanup_interval o.woken o.cleaned
                        (run task turns o.cleaned x.0).1 b (run-Spaced task turns o.cleaned x.0 c),
                  )
          ]
    ]
  ]
