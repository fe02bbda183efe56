-- ===== src/Cache/Dispatcher.antt =====
-- cache/cache_dispatcher.rs: one type for the caches of all kinds. A dispatcher to a local cache has
-- the number of that cache, under which its world stands, and the storage in the file system is a parameter.
pub mod Numbered
use btdt.Prelude.{ℕ, Option, none, some, List, Bytes}
use btdt.Cache.Dispatcher.Numbered.{put_at}
use btdt.Io.{Result, ok, ◌>>=◌, map_err, IoError, IoResult}
use btdt.Storage.Interface.{Storage}
use btdt.Storage.InMemory.Implements.{memory}
use btdt.Cache.{CacheHit}
use btdt.Cache.Externals.{Externals}
use btdt.Cache.Local
use btdt.Cache.Local.{World}
use btdt.Cache.Remote
use btdt.Cache.Remote.{RemoteCache, RemoteWriter, RemoteStop, RemoteResult, Tokens, failed}
use btdt.Util.Http.Message.{MessageReader, read_response_body}
use btdt.Util.Http.Network.{Urls, Network}

-- A hit with its reader in a box.
abbrev pub with_reader : {R Q : Type 0} → (R → Q) → Option (CacheHit R) → Option (CacheHit Q)
with_reader f none = none
with_reader f (some hit) =
    some (record { key = hit.key; reader = f hit.reader; size_hint = hit.size_hint })

abbrev pub map_ok : {A B E : Type 0} → (A → B) → Result A E → Result B E
map_ok f r = r >>= λ a. ok (f a)

-- The packages and the storage that the caches stand on.
pub record Backends : Type 1 where
  pub disk : Storage
  pub externals : Externals
  pub urls : Urls
  pub network : Network
  pub tokens : Tokens

module _ (B : Backends) where
  open B use {disk, externals, urls, network, tokens}

  -- The local caches, each with its own world; a directory is the cache of one number.
  pub record Worlds : Type 0 where
    pub in_memory : ℕ → World memory externals
    pub filesystem : ℕ → World disk externals

  pub data CacheDispatcher : Type 0 where
    in_memory filesystem : ℕ → CacheDispatcher
    remote : RemoteCache urls network tokens → CacheDispatcher

  -- `Box<dyn Read + Send>`
  pub data Reader : Type 0 where
    of_memory : ℕ → memory.Reader → Reader
    of_filesystem : ℕ → disk.Reader → Reader
    of_remote : MessageReader read_response_body → Reader

  pub data CacheWriter : Type 0 where
    to_memory : ℕ → Local.CacheWriter memory externals → CacheWriter
    to_filesystem : ℕ → Local.CacheWriter disk externals → CacheWriter
    to_remote : RemoteWriter urls network tokens → CacheWriter

  unfoldable pub get :
      CacheDispatcher → List Bytes → Worlds → Worlds × RemoteResult (Option (CacheHit Reader))
  unfolding Local.get Remote.get put_at
  get (in_memory i) keys w =
      let (s, r) = Local.get memory externals keys (w.in_memory i) in
      (
        record w { in_memory = put_at i s w.in_memory },
        map_ok (with_reader (of_memory i)) (map_err failed r),
      )
  get (filesystem i) keys w =
      let (s, r) = Local.get disk externals keys (w.filesystem i) in
      (
        record w { filesystem = put_at i s w.filesystem },
        map_ok (with_reader (of_filesystem i)) (map_err failed r),
      )
  get (remote c) keys w =
      (w, map_ok (with_reader of_remote) (Remote.get urls network tokens c keys))

  unfoldable pub set : CacheDispatcher → List Bytes → Worlds → Worlds × RemoteResult CacheWriter
  unfolding Local.set Remote.set put_at
  set (in_memory i) keys w =
      let (s, r) = Local.set memory externals keys (w.in_memory i) in
      (record w { in_memory = put_at i s w.in_memory }, map_ok (to_memory i) (map_err failed r))
  set (filesystem i) keys w =
      let (s, r) = Local.set disk externals keys (w.filesystem i) in
      (
        record w { filesystem = put_at i s w.filesystem },
        map_ok (to_filesystem i) (map_err failed r),
      )
  set (remote c) keys w = (w, map_ok to_remote (Remote.set urls network tokens c keys))

  -- `write_all` through `CacheWriter::write`, with the writer that it leaves
  unfoldable pub write : CacheWriter → Bytes → Worlds → (Worlds × CacheWriter) × IoResult (Unit {0})
  unfolding Local.write Remote.write put_at
  write (to_memory i c) buf w =
      let (s, r) = Local.write memory externals c buf (w.in_memory i).storage in
      (
        (
          record w { in_memory = put_at i (record (w.in_memory i) { storage = s }) w.in_memory },
          to_memory i c,
        ),
        r,
      )
  write (to_filesystem i c) buf w =
      let (s, r) = Local.write disk externals c buf (w.filesystem i).storage in
      (
        (
          record w { filesystem = put_at i (record (w.filesystem i) { storage = s }) w.filesystem },
          to_filesystem i c,
        ),
        r,
      )
  write (to_remote c) buf w =
      let (c', r) = Remote.write urls network tokens buf c in
      ((w, to_remote c'), map_ok (λ n. tt) r)

  unfoldable pub close : CacheWriter → Worlds → Worlds × Result (Unit {0}) (RemoteStop IoError)
  unfolding Local.close Remote.close put_at
  close (to_memory i c) w =
      let (s, r) = Local.close memory externals c (w.in_memory i).storage in
      (
        record w { in_memory = put_at i (record (w.in_memory i) { storage = s }) w.in_memory },
        map_err failed r,
      )
  close (to_filesystem i c) w =
      let (s, r) = Local.close disk externals c (w.filesystem i).storage in
      (
        record w { filesystem = put_at i (record (w.filesystem i) { storage = s }) w.filesystem },
        map_err failed r,
      )
  close (to_remote c) w = (w, Remote.close urls network tokens c)
