-- ===== src/Cache/Local/Clean/Eviction.antt =====
-- What the eviction loop of `LocalCache::clean` in local.rs deletes, and what it leaves.
use btdt.Prelude.{
  ℕ, zero, suc, ◌+◌, ◌-◌, ◌%◌, ◌≤◌, ◌<◌, ◌&&◌, ◌≡◌, refl, ap, sym, Bool, true, false, Option, none,
  some, inl, inr, List, [], ◌∷◌, length, leb, if◌then◌else◌, arith,
}
use btdt.Io.{ok, err, IoPathResult, Result, Result-cases}
use btdt.Storage.Interface.{Storage}
use btdt.Cache.Externals.{Externals, IsOrdered}
use btdt.Cache.Local.{World, M, ◌>>◌, pure, storing}
use btdt.Cache.Local.Clean.{or_max, wrap, evict, delete_blob, total, evict_from, CleanStop, stopped}
use btdt.Cache.Local.Clean.Deleting.{delete_paths, paths_of, delete_blob-paths}
use btdt.Cache.Local.Clean.Gather.{Blob, failed}
use btdt.Cache.Local.Clean.Heap.{pop}
use btdt.Cache.Local.Clean.Popping.{
  AllSince, length-pop, weigh, weigh-pop, AllSince-pop, pop-AllSince-back, AllSince-trans,
  pop-AllSince,
}

module _ (S : Storage) (X : Externals) where
  open X use {DateTime, TimeDelta}

  -- What the loop evicts, in its order, and what it keeps.
  unfoldable pub plan : ℕ → DateTime → ℕ → List (Blob S X) → ℕ → List (Blob S X) × List (Blob S X)
  plan zero cutoff max heap sum = ([], heap)
  plan (suc fuel) cutoff max [] sum = ([], [])
  plan (suc fuel) cutoff max (b ∷ bs) sum =
      let (top, heap) = pop S X b bs in
      let (evicted, kept) = plan fuel cutoff max heap ((sum + (wrap - top.size)) % wrap) in
      if X.at_least top.latest_access cutoff && leb sum max
      then ([], b ∷ bs)
      else (top ∷ evicted, kept)

  -- The files of the evicted blobs are deleted, until one deletion fails.
  unfoldable pub deleting : List (Blob S X) → List (Blob S X) → M S X (Option (List (Blob S X)))
  unfolding delete_paths paths_of
  deleting evicted kept =
      ◌>>◌ S X (storing S X (delete_paths S X (paths_of S X evicted))) (pure S X (some kept))

  -- One step of `plan`, by whether the loop ends.
  abbrev chosen :
      Bool
      → List (Blob S X)
      → Blob S X
      → List (Blob S X) × List (Blob S X)
      → List (Blob S X) × List (Blob S X)
  chosen c heap top p = if c then ([], heap) else (top ∷ p.0, p.1)

  evict_step :
      (c : Bool) (heap : List (Blob S X)) (top : Blob S X) (rest : M S X (Option (List (Blob S X))))
      (p : List (Blob S X) × List (Blob S X)) (w : World S X)
      → ((u : World S X) → rest u ≡ deleting p.0 p.1 u)
      → (if c then pure S X (some heap) else ◌>>◌ S X (delete_blob S X top) rest) w
        ≡ deleting (chosen c heap top p).0 (chosen c heap top p).1 w
  unfolding deleting delete_paths paths_of
  evict_step true heap top rest p w h = refl
  evict_step false heap top rest p w h =
      delete_blob-paths S X top p.0 rest (pure S X (some p.1)) w h

  -- With fuel for every blob, the loop deletes the blobs of `plan`, one after the other, with their
  -- keys first, until one deletion fails, and leaves the heap that `plan` keeps.
  pub evict-plan :
      (fuel : ℕ) (cutoff : DateTime) (max : ℕ) (heap : List (Blob S X)) (sum : ℕ) (w : World S X)
      → length heap ≤ fuel
      → evict S X fuel cutoff max heap sum w
        ≡ deleting (plan fuel cutoff max heap sum).0 (plan fuel cutoff max heap sum).1 w
  unfolding evict plan deleting delete_paths paths_of
  evict-plan zero cutoff max [] sum w le = refl
  evict-plan zero cutoff max (b ∷ bs) sum w le = absurd (omega arith)
  evict-plan (suc fuel) cutoff max [] sum w le = refl
  evict-plan (suc fuel) cutoff max (b ∷ bs) sum w le =
      let (top, heap) = pop S X b bs in
      evict_step (X.at_least top.latest_access cutoff && leb sum max) (b ∷ bs) top _ _ w (λ u.
        evict-plan fuel cutoff max heap ((sum + (wrap - top.size)) % wrap) u
          (omega (arith, length-pop S X b bs, le)))

  -- What the loop has ended with
  abbrev pub left : List (Blob S X) → IoPathResult (Unit {0}) → Result (List (Blob S X)) CleanStop
  left kept (ok u) = ok kept
  left kept (err e) = err (stopped (failed e))

  abbrev pub after : List (Blob S X) → World S X → World S X
  after evicted w = record w { storage = (delete_paths S X (paths_of S X evicted) w.storage).0 }

  abbrev pub planned : DateTime → Option ℕ → List (Blob S X) → List (Blob S X) × List (Blob S X)
  planned cutoff max blobs =
      plan (length blobs) cutoff (or_max S X max) blobs (total S X blobs % wrap)

  pub evict_from-plan :
      (cutoff : DateTime) (max : Option ℕ) (blobs : List (Blob S X)) (w : World S X)
      → evict_from S X max blobs (w, ok (some cutoff)) ≡ (
        after (planned cutoff max blobs).0 w,
        left
            (planned cutoff max blobs).1
            (delete_paths S X (paths_of S X (planned cutoff max blobs).0) w.storage).1,
      )
  unfolding deleting
  evict_from-plan cutoff max blobs w =
      let e =
        evict-plan (length blobs) cutoff (or_max S X max) blobs (total S X blobs % wrap) w
          (omega arith) in
      elim (Result-cases
        (delete_paths S X (paths_of S X (planned cutoff max blobs).0) w.storage).1) [
          | inl (tt, f) ↦ rw (e, deleting, f) refl
          | inr (x, f) ↦ rw (e, deleting, f) refl
        ]

  total-pop :
      (b : Blob S X) (bs : List (Blob S X))
      → total S X (b ∷ bs) ≡ (pop S X b bs).0.size + total S X (pop S X b bs).1
  unfolding pop total
  total-pop b [] = refl
  total-pop b (c ∷ cs) = ground (arith, total-pop c cs)

  -- The evicted blobs are in the order of their last use, and those that are kept were not used
  -- earlier than they.
  abbrev pub OldestFirst : List (Blob S X) → List (Blob S X) → Type 0
  OldestFirst [] kept = Unit
  OldestFirst (b ∷ bs) kept =
      AllSince S X b.latest_access bs × AllSince S X b.latest_access kept × OldestFirst bs kept

  -- A blob is evicted only if it is too old, or what is there at that time is too large.
  abbrev pub AllNeeded : DateTime → ℕ → List (Blob S X) → List (Blob S X) → Type 0
  AllNeeded cutoff max [] kept = Unit
  AllNeeded cutoff max (b ∷ bs) kept =
      (X.at_least b.latest_access cutoff ≡ true → max < b.size + total S X bs + total S X kept)
      × AllNeeded cutoff max bs kept

  pub record IsEviction (cutoff : DateTime) (max : ℕ) (heap evicted kept : List (Blob S X))
      : Type 0 where
    pub same : (f : Blob S X → ℕ) → weigh S X f heap ≡ weigh S X f evicted + weigh S X f kept
    pub sum : total S X heap ≡ total S X evicted + total S X kept
    pub count : length heap ≡ length evicted + length kept
    pub recent : AllSince S X cutoff kept
    pub within : total S X kept ≤ max
    pub oldest : OldestFirst evicted kept
    pub needed : AllNeeded cutoff max evicted kept
    pub since : (t : DateTime) → AllSince S X t heap → AllSince S X t evicted × AllSince S X t kept

  IsEviction-nil : (cutoff : DateTime) (max : ℕ) → IsEviction cutoff max [] [] []
  unfolding total weigh
  IsEviction-nil cutoff max = record {
    same = λ f. refl;
    sum = refl;
    count = refl;
    recent = tt;
    within = omega arith;
    oldest = tt;
    needed = tt;
    since = λ t h. (tt, tt);
  }

  -- The moment before which a blob is too old, at a time.
  abbrev pub cutoff_at : Option TimeDelta → DateTime → Option DateTime
  cutoff_at none t = some X.min_utc
  cutoff_at (some age) t = X.minus t age

  module _ (O : IsOrdered X) where
    IsEviction-step :
        (c : Bool) (cutoff : DateTime) (max : ℕ) (b : Blob S X) (bs : List (Blob S X))
        (p : List (Blob S X) × List (Blob S X))
        → (X.at_least (pop S X b bs).0.latest_access cutoff && leb (total S X (b ∷ bs)) max) ≡ c
        → IsEviction cutoff max (pop S X b bs).1 p.0 p.1
        → IsEviction cutoff max
            (b ∷ bs)
            (chosen c (b ∷ bs) (pop S X b bs).0 p).0
            (chosen c (b ∷ bs) (pop S X b bs).0 p).1
    IsEviction-step true cutoff max b bs p h e = record {
      same = λ f. unfold weigh in omega arith;
      sum = unfold total in omega arith;
      count = omega arith;
      recent = pop-AllSince-back S X cutoff b bs (
        ground (arith, h),
        AllSince-trans S X O cutoff _ (pop S X b bs).1 (ground (arith, h))
            (pop-AllSince S X O b bs),
      );
      within = ground (arith, h);
      oldest = tt;
      needed = tt;
      since = λ t a. (tt, a);
    }
    IsEviction-step false cutoff max b bs p h e = record {
      same = λ f. unfold weigh in omega (arith, e.same f, weigh-pop S X f b bs);
      sum = unfold total in omega (arith, e.sum, total-pop b bs);
      count = omega (arith, e.count, length-pop S X b bs);
      recent = e.recent;
      within = e.within;
      oldest = (
        (e.since _ (pop-AllSince S X O b bs)).0,
        (e.since _ (pop-AllSince S X O b bs)).1,
        e.oldest,
      );
      needed = (λ a. ground (arith, h, a, e.sum, total-pop b bs), e.needed);
      since =
          λ t a. let q = AllSince-pop S X t b bs a in let (x, y) = e.since t q.1 in ((q.0, x), y);
    }

    -- With fuel for every blob and a sum that fits in 64 bits, what the loop plans is an eviction:
    -- nothing is lost, the evicted blobs are the longest unused in that order, what is kept was used
    -- since the cutoff and is within the limit, and none is evicted without need.
    pub plan-IsEviction :
        (fuel : ℕ) (cutoff : DateTime) (max : ℕ) (heap : List (Blob S X)) (sum : ℕ)
        → length heap ≤ fuel
        → sum ≡ total S X heap
        → total S X heap < wrap
        → IsEviction cutoff max heap
            (plan fuel cutoff max heap sum).0
            (plan fuel cutoff max heap sum).1
    unfolding plan
    plan-IsEviction zero cutoff max [] sum f q l = IsEviction-nil cutoff max
    plan-IsEviction zero cutoff max (b ∷ bs) sum f q l = absurd (omega arith)
    plan-IsEviction (suc fuel) cutoff max [] sum f q l = IsEviction-nil cutoff max
    plan-IsEviction (suc fuel) cutoff max (b ∷ bs) sum f q l =
        let (top, heap) = pop S X b bs in
        let t = total-pop b bs in
        let left : (sum + (wrap - top.size)) % wrap ≡ total S X heap = omega (arith, t, q, l) in
        IsEviction-step (X.at_least top.latest_access cutoff && leb sum max) cutoff max b bs _
          (ap (λ n. X.at_least top.latest_access cutoff && leb n max) (sym q))
          (plan-IsEviction fuel cutoff max heap _ (omega (arith, length-pop S X b bs, f)) left
            (omega (arith, t, l)))
