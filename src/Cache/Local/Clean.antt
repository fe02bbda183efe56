-- ===== src/Cache/Local/Clean.antt =====
-- cache/local.rs: `LocalCache::clean`. The first half, which only reads, is in Gather; the loop over
-- the heap is here.
pub mod Order
pub mod Gather
pub mod Found
pub mod Heap
pub mod Popping
pub mod Eviction
pub mod Deleting
pub mod Outcome
mod Tests
use btdt.Prelude.{
  ℕ, zero, suc, ◌+◌, ◌-◌, ◌%◌, ◌&&◌, Option, none, some, List, [], ◌∷◌, Bytes, length, leb,
  if◌then◌else◌,
}
use btdt.Io.{◌>>=◌ as and_then, Result, ok, err, IoPathResult}
use btdt.Storage.Interface.{Storage}
use btdt.Cache.Externals.{Externals}
use btdt.Cache.Local.{World, M, ◌>>=◌, ◌>>◌, pure, storing, now, meta_path, blob_path}
use Gather.{Blob, Stop, failed, panicked, gather}
use Heap.{pop}

-- `u64::MAX + 1`
abbrev pub wrap : ℕ
wrap = 18446744073709551616

-- `out_of_fuel` is the model's own: the loop over the heap has not come to its end.
pub data CleanStop : Type 0 where
  stopped : Stop → CleanStop
  out_of_fuel : CleanStop

module _ (S : Storage) (X : Externals) where
  open X use {DateTime, TimeDelta}

  unfoldable pub delete_keys : List Bytes → M S X (Unit {0})
  delete_keys [] = pure S X tt
  delete_keys (key ∷ keys) =
      let rest = delete_keys keys in ◌>>◌ S X (storing S X (S.delete (meta_path S X key))) rest

  unfoldable pub delete_blob : Blob S X → M S X (Unit {0})
  unfolding delete_keys
  delete_blob b = ◌>>◌ S X (delete_keys b.keys) (storing S X (S.delete (blob_path S X b.blob_id)))

  -- The `while` loop, with the heap that it leaves, or nothing if the fuel does not reach its end.
  unfoldable pub evict : ℕ → DateTime → ℕ → List (Blob S X) → ℕ → M S X (Option (List (Blob S X)))
  unfolding pop delete_blob
  evict zero cutoff max [] sum = pure S X (some [])
  evict zero cutoff max (b ∷ bs) sum = pure S X none
  evict (suc fuel) cutoff max [] sum = pure S X (some [])
  evict (suc fuel) cutoff max (b ∷ bs) sum =
      let (top, heap) = pop S X b bs in
      let rest = evict fuel cutoff max heap ((sum + (wrap - top.size)) % wrap) in
      if X.at_least top.latest_access cutoff && leb sum max
      then pure S X (some (b ∷ bs))
      else ◌>>◌ S X (delete_blob top) rest

  unfoldable pub total : List (Blob S X) → ℕ
  total [] = 0
  total (b ∷ bs) = b.size + total bs

  -- `max_unused_age.map(|age| now - age).unwrap_or(MIN_UTC)`; the clock is asked only for an age. The
  -- difference panics where chrono cannot represent it.
  unfoldable pub cutoff_of : Option TimeDelta → M S X (Option DateTime)
  unfolding now
  cutoff_of none = pure S X (some X.min_utc)
  cutoff_of (some age) = ◌>>=◌ S X (now S X) λ t. pure S X (X.minus t age)

  abbrev pub or_max : Option ℕ → ℕ
  or_max none = wrap - 1
  or_max (some m) = m

  abbrev pub heap_left :
      IoPathResult (Option (List (Blob S X))) → Result (List (Blob S X)) CleanStop
  heap_left (ok none) = err out_of_fuel
  heap_left (ok (some heap)) = ok heap
  heap_left (err e) = err (stopped (failed e))

  abbrev pub evict_from :
      Option ℕ
      → List (Blob S X)
      → World S X × IoPathResult (Option DateTime)
      → World S X × Result (List (Blob S X)) CleanStop
  evict_from max blobs (w, err e) = (w, err (stopped (failed e)))
  evict_from max blobs (w, ok none) = (w, err (stopped panicked))
  evict_from max blobs (w, ok (some cutoff)) =
      let (w', r) = evict (length blobs) cutoff (or_max max) blobs (total blobs % wrap) w in
      (w', heap_left r)

  unfoldable pub evict_all :
      Option TimeDelta
      → Option ℕ
      → List (Blob S X)
      → World S X
      → World S X × Result (List (Blob S X)) CleanStop
  unfolding evict total cutoff_of
  evict_all age max blobs w = evict_from max blobs (cutoff_of age w)

  -- With the heap that the loop leaves.
  unfoldable pub clean_in :
      Option TimeDelta
      → Option ℕ
      → Result (List (Blob S X)) Stop
      → World S X
      → World S X × Result (List (Blob S X)) CleanStop
  unfolding evict_all
  clean_in age max (err e) w = (w, err (stopped e))
  clean_in age max (ok blobs) w = evict_all age max blobs w

  unfoldable pub clean :
      Option TimeDelta → Option ℕ → World S X → World S X × Result (Unit {0}) CleanStop
  unfolding gather clean_in
  clean none none w = (w, ok tt)
  clean age max w =
      let (w', r) = clean_in age max (gather S X w.storage) w in (w', and_then r λ heap. ok tt)
