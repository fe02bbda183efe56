-- ===== src/Cache/Local/Clean/Outcome.antt =====
-- What `LocalCache::clean` of local.rs does to the storage.
use btdt.Prelude.{ℕ, ◌+◌, ◌≡◌, ◌≢◌, Option, none, some, List, arith, ap, ◌∙◌, sym, inl, inr, ◌⊎◌}
use btdt.Io.{ok, err, Result, IoPathResult, ◌>>=◌, Result-cases}
use btdt.Storage.Interface.{Storage}
use btdt.Cache.Externals.{Externals}
use btdt.Cache.Local.{World}
use btdt.Cache.Local.Clean.{
  clean, clean_in, cutoff_of, or_max, evict_all, evict_from, CleanStop, stopped, out_of_fuel,
}
use btdt.Cache.Local.Clean.Gather.{Blob, Stop, failed, panicked, gather}
use btdt.Cache.Local.Clean.Deleting.{delete_paths, paths_of}
use btdt.Cache.Local.Clean.Eviction.{IsEviction, cutoff_at, left, evict_from-plan}

module _ (S : Storage) (X : Externals) where
  -- The result of `clean` after the deletions.
  abbrev pub outcome : IoPathResult (Unit {0}) → Result (Unit {0}) CleanStop
  outcome (ok u) = ok tt
  outcome (err e) = err (stopped (failed e))

  -- The clock has been asked if there is an age.
  abbrev pub asked : Option X.TimeDelta → World S X → World S X
  asked none w = w
  asked (some age) w = record w { clock = w.clock + 1 }

  -- An eviction of the blobs was done: the files of the evicted blobs were deleted one after the other,
  -- those of the keys of a blob before its content, until a deletion failed, and nothing else was changed.
  pub record IsCleaned (age : Option X.TimeDelta) (max : Option ℕ) (w : World S X)
      (blobs : List (Blob S X)) (cutoff : X.DateTime)
      (done : World S X × Result (Unit {0}) CleanStop) : Type 0 where
    pub evicted : List (Blob S X)
    pub kept : List (Blob S X)
    pub eviction : IsEviction S X cutoff (or_max S X max) blobs evicted kept
    pub world :
        done.0
        ≡ record (asked age w) { storage = (delete_paths S X (paths_of S X evicted) w.storage).0 }
    pub result : done.1 ≡ outcome (delete_paths S X (paths_of S X evicted) w.storage).1

  abbrev pub Cleaned :
      Option X.TimeDelta
      → Option ℕ
      → World S X
      → List (Blob S X)
      → World S X × Result (Unit {0}) CleanStop
      → Type 0
  Cleaned age max w blobs done =
      ((cutoff : X.DateTime) × (cutoff_at S X age (X.time_at w.clock) ≡ some cutoff)
        × IsCleaned age max w blobs cutoff done)
      ⊎ ((cutoff_at S X age (X.time_at w.clock) ≡ none)
          × (done.1 ≡ err (stopped panicked))
          × (done.0.storage ≡ w.storage))

  -- `clean` from the blobs that it has found
  abbrev limited_from :
      Option X.TimeDelta
      → Option ℕ
      → World S X
      → Result (List (Blob S X)) Stop
      → World S X × Result (Unit {0}) CleanStop
  limited_from age max w found =
      let (w', r) = clean_in S X age max found w in (w', r >>= λ heap. ok tt)

  left-ends :
      (kept : List (Blob S X)) (r : IoPathResult (Unit {0})) → left S X kept r ≢ err out_of_fuel
  left-ends kept (ok u) h = absurd (ground arith)
  left-ends kept (err e) h = absurd (ground arith)

  evict_from-ends :
      (max : Option ℕ) (blobs : List (Blob S X)) (x : World S X × IoPathResult (Option X.DateTime))
      → (evict_from S X max blobs x).1 ≢ err out_of_fuel
  evict_from-ends max blobs (w, err e) h = absurd (ground arith)
  evict_from-ends max blobs (w, ok none) h = absurd (ground arith)
  evict_from-ends max blobs (w, ok (some cutoff)) h =
      left-ends _ _ (sym (ap (λ x. x.1) (evict_from-plan S X cutoff max blobs w)) ∙ h)

  -- The loop over the heap comes to its end.
  limited_from-ends :
      (age : Option X.TimeDelta) (max : Option ℕ) (w : World S X)
      (found : Result (List (Blob S X)) Stop)
      → (limited_from age max w found).1 ≢ err out_of_fuel
  unfolding clean_in evict_all
  limited_from-ends age max w (err e) h = absurd (ground arith)
  limited_from-ends age max w (ok blobs) h =
      let x = evict_from S X max blobs (cutoff_of S X age w) in
      elim (Result-cases x.1) [
        | inl (b, e) ↦ absurd (ground arith)
        | inr (y, e) ↦ absurd (ground (arith, evict_from-ends max blobs (cutoff_of S X age w)))
      ]

  pub clean-ends :
      (age : Option X.TimeDelta) (max : Option ℕ) (w : World S X)
      → (clean S X age max w).1 ≢ err out_of_fuel
  unfolding clean
  clean-ends none none w h = absurd (ground arith)
  clean-ends none (some m) w h = limited_from-ends none (some m) w (gather S X w.storage) h
  clean-ends (some a) max w h = limited_from-ends (some a) max w (gather S X w.storage) h
