-- ===== src/Cache/Meta.antt =====
-- cache/meta.rs: the metadata of a cache entry. `archive_view` points into `data`; it is kept as the
-- value that it points to.
use btdt.Prelude.{ℕ, ◌≡◌, refl, none, some, Bytes, length, arith, ◌∙◌}
use btdt.Io.{Result, ok, err}
use btdt.Cache.Externals.{MetaV1, Externals, IsFaithful, IsArchivable}

abbrev pub meta_max_size : ℕ
meta_max_size = 40

pub record Meta : Type 0 where
  pub bytes : Bytes
  pub archive_view : MetaV1

pub data DeserializationError : Type 0 where
  deserialization_error : DeserializationError

module _ (X : Externals) where
  open X use {DateTime}

  -- `MetaV1::new`
  new_v1 : Bytes → DateTime → MetaV1
  new_v1 blob_id t = record {
    version = 1;
    blob_id = blob_id;
    latest_access = X.timestamp t;
    latest_access_nsecs = X.timestamp_subsec_nanos t;
  }

  -- `Meta::new`
  unfoldable pub new : Bytes → DateTime → Meta
  unfolding new_v1
  new blob_id t = record { bytes = X.to_bytes (new_v1 blob_id t); archive_view = new_v1 blob_id t }

  unfoldable pub from_bytes : Bytes → Result Meta DeserializationError
  from_bytes bytes = elim (X.access bytes) [
    | some v ↦ ok (record { bytes = bytes; archive_view = v })
    | none ↦ err deserialization_error
  ]

  unfoldable pub set_latest_access : DateTime → Meta → Meta
  set_latest_access t m = record {
    bytes = X.store_access m.bytes (X.timestamp t) (X.timestamp_subsec_nanos t);
    archive_view = record m.archive_view {
      latest_access = X.timestamp t;
      latest_access_nsecs = X.timestamp_subsec_nanos t;
    };
  }

  abbrev pub blob_id : Meta → Bytes
  blob_id m = m.archive_view.blob_id

  unfoldable pub latest_access : Meta → Result DateTime DeserializationError
  latest_access m =
      elim (X.from_timestamp m.archive_view.latest_access m.archive_view.latest_access_nsecs) [
        | some t ↦ ok t
        | none ↦ err deserialization_error
      ]

  -- The view shows what the bytes hold, and the bytes fill a file of the fixed size.
  pub record IsCoherent (m : Meta) : Type 0 where
    pub view : X.access m.bytes ≡ some m.archive_view
    pub size : length m.bytes ≡ meta_max_size

module _ (X : Externals) (F : IsFaithful X) where
  open X use {DateTime}

  pub new-IsCoherent : (id : Bytes) (t : DateTime) → length id ≡ 16 → IsCoherent X (new X id t)
  unfolding new
  new-IsCoherent id t h =
      let a : IsArchivable (new_v1 X id t) = record {
        version = omega arith;
        blob_id = h;
        latest_access = F.timestamp-lt t;
        latest_access_nsecs = F.nanos-lt t;
      } in
      record { view = F.access-to_bytes _ a; size = F.length-to_bytes _ a }

  -- A coherent meta is coherent after a change of its access time, if the crates it calls keep their
  -- promises.
  pub set_latest_access-IsCoherent :
      (t : DateTime) (m : Meta) → IsCoherent X m → IsCoherent X (set_latest_access X t m)
  unfolding set_latest_access
  set_latest_access-IsCoherent t m c = record {
    view =
        F.access-store_access m.bytes m.archive_view _ _ (F.timestamp-lt t) (F.nanos-lt t) c.view;
    size = F.length-store_access m.bytes m.archive_view _ _ c.view ∙ c.size;
  }

  -- Bytes of a coherent meta are read back as it.
  pub from_bytes-bytes : (m : Meta) → IsCoherent X m → from_bytes X m.bytes ≡ ok m
  unfolding from_bytes
  from_bytes-bytes m c = ground (arith, c.view)

  -- The access time that is set is the one that is read, if the times survive chrono's conversions,
  -- and the blob stays the same.
  pub latest_access-set_latest_access :
      (t : DateTime) (m : Meta)
      → (latest_access X (set_latest_access X t m) ≡ ok t)
        × (blob_id X (set_latest_access X t m) ≡ blob_id X m)
  unfolding latest_access set_latest_access
  latest_access-set_latest_access t m = (ground (arith, F.from_timestamp-timestamp t), refl)
