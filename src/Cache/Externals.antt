-- ===== src/Cache/Externals.antt =====
-- What the local cache calls outside the repository: chrono, blake3, data_encoding and rkyv. The
-- times and the random bytes are the streams of what the clock and the generator will return.
use btdt.Prelude.{ℕ, ◌<◌, ◌^◌, ◌≡◌, Bool, true, false, Option, some, Bytes, length}

-- cache/meta.rs: the archived struct. `i64` and `u32` are by their bit patterns.
pub record MetaV1 : Type 0 where
  pub version : ℕ
  pub blob_id : Bytes
  pub latest_access : ℕ
  pub latest_access_nsecs : ℕ

pub record Externals : Type 1 where
  -- chrono: `DateTime<Utc>`, `TimeDelta`, `Ord`, `-`, `MIN_UTC`
  pub DateTime : Type 0
  pub TimeDelta : Type 0
  pub timestamp : DateTime → ℕ
  pub timestamp_subsec_nanos : DateTime → ℕ
  pub from_timestamp : ℕ → ℕ → Option DateTime
  pub at_least : DateTime → DateTime → Bool
  pub minus : DateTime → TimeDelta → Option DateTime
  pub min_utc : DateTime
  -- the clock and the random number generator
  pub time_at : ℕ → DateTime
  pub id_at : ℕ → Bytes
  -- the first byte of `blake3::hash`
  pub hash : Bytes → Bytes
  -- data_encoding's `encode` and `decode` for the alphabet of util/encoding.rs
  pub encode : Bytes → Bytes
  pub decode : Bytes → Option Bytes
  -- rkyv: `to_bytes`, `access`, and a write to the two fields of the accessed archive
  pub to_bytes : MetaV1 → Bytes
  pub access : Bytes → Option MetaV1
  pub store_access : Bytes → ℕ → ℕ → Bytes

-- The fields are in the ranges of their types in the source.
pub record IsArchivable (m : MetaV1) : Type 0 where
  pub version : m.version < 2 ^ 16
  pub blob_id : length m.blob_id ≡ 16
  pub latest_access : m.latest_access < 2 ^ 64
  pub latest_access_nsecs : m.latest_access_nsecs < 2 ^ 32

-- What the cache relies on.
pub record IsFaithful (X : Externals) : Type 0 where
  pub length-id_at : (n : ℕ) → length (X.id_at n) ≡ 16
  pub timestamp-lt : (t : X.DateTime) → X.timestamp t < 2 ^ 64
  pub nanos-lt : (t : X.DateTime) → X.timestamp_subsec_nanos t < 2 ^ 32
  pub from_timestamp-timestamp :
      (t : X.DateTime) → X.from_timestamp (X.timestamp t) (X.timestamp_subsec_nanos t) ≡ some t
  pub access-to_bytes : (m : MetaV1) → IsArchivable m → X.access (X.to_bytes m) ≡ some m
  pub length-to_bytes : (m : MetaV1) → IsArchivable m → length (X.to_bytes m) ≡ 40
  pub access-store_access :
      (d : Bytes) (m : MetaV1) (t n : ℕ)
      → t < 2 ^ 64
      → n < 2 ^ 32
      → X.access d ≡ some m
      → X.access (X.store_access d t n)
        ≡ some (record m { latest_access = t; latest_access_nsecs = n })
  pub length-store_access :
      (d : Bytes) (m : MetaV1) (t n : ℕ)
      → X.access d ≡ some m
      → length (X.store_access d t n) ≡ length d

-- `Ord` of `DateTime<Utc>` is a total order, and `MIN_UTC` is its least time.
pub record IsOrdered (X : Externals) : Type 0 where
  pub total : (a b : X.DateTime) → X.at_least a b ≡ false → X.at_least b a ≡ true
  pub transitive :
      (a b c : X.DateTime) → X.at_least a b ≡ true → X.at_least b c ≡ true → X.at_least a c ≡ true
  pub least : (a : X.DateTime) → X.at_least a X.min_utc ≡ true
