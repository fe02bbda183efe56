-- ===== src/Cache/Local.antt =====
-- cache/local.rs: the cache over a storage. The world is the storage's state, and how often the
-- clock and the random number generator were asked.
pub mod Steps
pub mod Get
pub mod Hit
pub mod Set
pub mod Session
pub mod RoundTrip
pub mod Reliable
pub mod Clean
pub mod Tests
use btdt.Prelude.{
  ℕ, ◌+◌, ◌∙◌, Option, none, some, List, [], ◌∷◌, ◌++◌, map, take, drop, Bytes, codes,
}
use btdt.Io.{
  ◌>>=◌ as and_then, Result, ok, err, IoResult, IoPathResult, IoPathError, IoError, ErrorKind,
  error_no_path, error_at, with_path, no_path, not_found, invalid_data, map_err,
}
use btdt.Storage.{FileHandle}
use btdt.Storage.Interface.{Storage}
use btdt.Cache.{CacheHit}
use btdt.Cache.Externals.{Externals}
use btdt.Cache.Meta
use btdt.Cache.Meta.{Meta, meta_max_size, DeserializationError}

module _ (S : Storage) (X : Externals) where
  open S use {State, Reader, Writer}
  open X use {DateTime}

  pub record World : Type 0 where
    pub storage : State
    pub clock : ℕ
    pub rng : ℕ

  abbrev pub M : Type 0 → Type 0
  M A = World → World × IoPathResult A

  abbrev pub pure : {A : Type 0} → A → M A
  pure a w = (w, ok a)

  abbrev pub continue : {A B : Type 0} → IoPathResult A → (A → M B) → M B
  continue (ok a) f w = f a w
  continue (err e) f w = (w, err e)

  infixl 5 ◌>>=◌ ◌>>◌
  abbrev pub ◌>>=◌ : {A B : Type 0} → M A → (A → M B) → M B
  ◌>>=◌ m f w = let (w', r) = m w in continue r f w'

  abbrev pub ◌>>◌ : {A B : Type 0} → M A → M B → M B
  m >> n = m >>= λ _. n

  -- The storage's operations, and the clock's and the generator's.
  abbrev pub storing : {A : Type 0} → (State → State × IoPathResult A) → M A
  storing f w = let (s, r) = f w.storage in (record w { storage = s }, r)

  abbrev pub io_at :
      {A : Type 0} → Bytes → (State → State × IoResult A) → State → State × IoPathResult A
  io_at p f s = let (s', r) = f s in (s', with_path r p)

  unfoldable pub now : M DateTime
  now w = (record w { clock = w.clock + 1 }, ok (X.time_at w.clock))

  unfoldable pub new_id : M Bytes
  new_id w = (record w { rng = w.rng + 1 }, ok (X.id_at w.rng))

  -- `LocalCache::blob_path` and `LocalCache::meta_path`
  unfoldable pub blob_path : Bytes → Bytes
  blob_path blob_id =
      let text = X.encode blob_id in codes "/blob/" ++ (take 2 text ++ (b'/' ∷ drop 2 text))

  unfoldable pub meta_path : Bytes → Bytes
  meta_path key = codes "/meta/" ++ (X.encode (X.hash key) ++ (b'/' ∷ key))

  -- `format!("{err:?}")` of the one deserialization error is a text that nothing reads.
  abbrev pub bad_meta : DeserializationError → IoPathError
  bad_meta e = error_no_path (record { kind = invalid_data; message = "deserialization error" })

  unfoldable pub read_meta : Bytes → State → IoPathResult Meta
  read_meta path s = and_then (S.get path s) λ handle.
      and_then (no_path (S.read_exact handle.reader meta_max_size s))
        λ bytes. map_err bad_meta (Meta.from_bytes X bytes)

  -- The access time of a meta that was read is stored.
  unfoldable pub touch : Bytes → Meta → M Meta
  unfolding now
  touch path meta = do
    t ← now
    let meta' = Meta.set_latest_access X t meta
    writer ← storing (S.put path)
    storing (io_at path (S.write_all writer meta'.bytes))
    storing (io_at path (S.close writer))
    pure meta'

  abbrev pub Hit : Type 0
  Hit = Option (CacheHit Reader)

  -- `continue` to the next key, or return the error.
  abbrev pub retry : IoPathError → ErrorKind → M Hit → M Hit
  retry e not_found rest w = rest w
  retry e kind rest w = (w, err e)

  unfoldable pub blob_of : Bytes → M Hit → IoPathResult (FileHandle Reader) → M Hit
  blob_of key rest (ok h) w =
      (w, ok (some (record { key = key; reader = h.reader; size_hint = some h.size_hint })))
  blob_of key rest (err e) w = retry e e.error.kind rest w

  unfoldable pub entry_of : Bytes → M Hit → IoPathResult Meta → M Hit
  entry_of key rest (ok meta) w =
      (do
        meta' ← touch (meta_path key) meta
        λ w'. blob_of key rest (S.get (blob_path (Meta.blob_id X meta')) w'.storage) w')
        w
  entry_of key rest (err e) w = retry e e.error.kind rest w

  -- `LocalCache::get`, over the keys that are left
  unfoldable pub get : List Bytes → M Hit
  get [] w = (w, ok none)
  get (key ∷ keys) w =
      let rest = get keys in entry_of key rest (read_meta (meta_path key) w.storage) w

  pub record CacheWriter : Type 0 where
    pub blob_writer : Writer
    pub meta_writers : List Writer
    pub meta : Meta

  -- `keys.map(meta_path).map(put).collect()`
  unfoldable pub put_metas : List Bytes → M (List Writer)
  put_metas [] = pure []
  put_metas (key ∷ keys) = do
    writer ← storing (S.put (meta_path key))
    writers ← put_metas keys
    pure (writer ∷ writers)

  unfoldable pub set : List Bytes → M CacheWriter
  set keys = do
    blob_id ← new_id
    t ← now
    blob_writer ← storing (S.put (blob_path blob_id))
    meta_writers ← put_metas keys
    pure (record {
      blob_writer = blob_writer;
      meta_writers = meta_writers;
      meta = Meta.new X blob_id t;
    })

  -- `write_all` through `CacheWriter::write`
  unfoldable pub write : CacheWriter → Bytes → State → State × IoResult (Unit {0})
  write c buf s = S.write_all c.blob_writer buf s

  -- `CacheWriter::close`: the blob's writer first, and then each meta is written and closed.
  abbrev pub then_io :
      {A : Type 0} → State × IoResult (Unit {0}) → (State → State × IoResult A) → State × IoResult A
  then_io (s, ok u) k = k s
  then_io (s, err e) k = (s, err e)

  unfoldable pub close_metas : List Writer → Bytes → State → State × IoResult (Unit {0})
  close_metas [] bytes s = (s, ok tt)
  close_metas (writer ∷ writers) bytes s =
      let rest = close_metas writers bytes in
      then_io (S.write_all writer bytes s) λ s1. then_io (S.close writer s1) rest

  unfoldable pub close : CacheWriter → State → State × IoResult (Unit {0})
  close c s = then_io (S.close c.blob_writer s) (close_metas c.meta_writers c.meta.bytes)
