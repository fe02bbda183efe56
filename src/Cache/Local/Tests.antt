-- ===== src/Cache/Local/Tests.antt =====
-- The theorems about local.rs over the storage in memory.
use btdt.Prelude.{
  concat, ℕ, ◌≡◌, refl, Bool, true, false, ◌||◌, not, none, some, List, [], ◌∷◌, ◌++◌, arith, Bytes,
  codes, length, get_or, set, take, drop, ltb, zero, suc, length-append, length-set, ◌∙◌, ◌==◌,
  if◌then◌else◌, bytes_dec, ap,
}
use btdt.Io.{ok}
use btdt.Storage.InMemory
use btdt.Storage.InMemory.{InMemoryStorage}
use btdt.Util.Close
use btdt.Storage.InMemory.FileNode.{
  write as file_write, reader, read_exact, exactly, read, size as file_size,
}
use btdt.Storage.InMemory.View.{write_file}
use btdt.Storage.InMemory.PathIter.{split, components}
use btdt.Storage.InMemory.Implements.{memory, memory_view, memory-IsLawful}
use btdt.Storage.InMemory.Tree
use btdt.Storage.InMemory.Tree.{end, get_or_insert_dir, create_file}
use btdt.Storage.InMemory.View.{IsWellFormed}
use btdt.Storage.InMemory.Nodes.{file_at-end}
use btdt.Storage.InMemory.PathIter.Components.{names}
use btdt.Storage.Interface.{Separate}
use btdt.Cache.Externals.{Externals, MetaV1, IsFaithful, IsArchivable}
use btdt.Cache.Meta
use btdt.Cache.Meta.{
  Meta, IsCoherent, new-IsCoherent, set_latest_access-IsCoherent, latest_access-set_latest_access,
}
use btdt.Cache.Local.{
  World, Hit, get, now, new_id, set as cache_set, put_metas, write, close, close_metas, meta_path,
  blob_path,
}
use btdt.Cache.Local.{touch, read_meta, entry_of, blob_of}
use btdt.Cache.Local.Get.{AllApart, get-content}
use btdt.Cache.Local.Hit.{IsHit, get-hit}
use btdt.Cache.Local.Session.{finish, write_blob, store, Kept, store-Kept}
use btdt.Cache.Local.Set.{meta_paths}
use btdt.Cache.Local.Reliable.{get-store_reliable}
use btdt.Storage.InMemory.Reliable.{memory-IsReliable}

abbrev padding : Bytes
padding = codes "....................."

abbrev pack : MetaV1 → Bytes
pack m = m.version ∷ m.latest_access ∷ m.latest_access_nsecs ∷ (m.blob_id ++ padding)

abbrev unpack : Bytes → MetaV1
unpack d = record {
  version = get_or d 0 0;
  blob_id = take 16 (drop 3 d);
  latest_access = get_or d 1 0;
  latest_access_nsecs = get_or d 2 0;
}

-- Two moments, a generator that always returns one identifier, and packed metas.
abbrev pub toy : Externals
toy = record {
  DateTime = Bool;
  TimeDelta = ℕ;
  timestamp = λ t. if t then 20 else 10;
  timestamp_subsec_nanos = λ t. 0;
  from_timestamp = λ s n. some (if s == 20 then true else false);
  at_least = λ a b. a || not b;
  minus = λ t d. some t;
  min_utc = false;
  time_at = λ n. ltb 0 n;
  id_at = λ n. codes "0123456789abcdef";
  hash = λ key. codes "h";
  encode = λ b. b;
  decode = λ b. some b;
  to_bytes = pack;
  access = λ d. if length d == 40 then some (unpack d) else none;
  store_access = λ d t n. set (set d 1 t) 2 n;
}

take_front : (a b : Bytes) (n : ℕ) → length a ≡ n → take n (a ++ b) ≡ a
take_front [] b zero h = refl
take_front [] b (suc n) h = absurd (omega arith)
take_front (x ∷ a) b zero h = absurd (omega arith)
take_front (x ∷ a) b (suc n) h = ap (λ r. x ∷ r) (take_front a b n (omega arith))

length-pack : (m : MetaV1) → IsArchivable m → length (pack m) ≡ 40
length-pack m a = omega (arith, a.blob_id, length-append {0} m.blob_id padding)

access-pack : (m : MetaV1) → IsArchivable m → toy.access (toy.to_bytes m) ≡ some m
access-pack m a = ground (arith, length-pack m a, take_front m.blob_id padding 16 a.blob_id)

store_access-toy :
    (d : Bytes) (m : MetaV1) (t n : ℕ)
    → toy.access d ≡ some m
    → toy.access (toy.store_access d t n)
      ≡ some (record m { latest_access = t; latest_access_nsecs = n })
store_access-toy [] m t n h = ground arith
store_access-toy (a ∷ []) m t n h = ground arith
store_access-toy (a ∷ b ∷ []) m t n h = ground arith
store_access-toy (a ∷ b ∷ c ∷ d) m t n h = ground arith

pub toy-IsFaithful : IsFaithful toy
toy-IsFaithful = record {
  length-id_at = λ n. refl;
  timestamp-lt = λ t. ground arith;
  nanos-lt = λ t. omega arith;
  from_timestamp-timestamp = λ t. ground arith;
  access-to_bytes = access-pack;
  length-to_bytes = length-pack;
  access-store_access = λ d m t n _ _ h. store_access-toy d m t n h;
  length-store_access = λ d m t n h. length-set (set d 1 t) 2 n ∙ length-set d 1 t;
}

abbrev pub start : World memory toy
start = record { storage = record { root = end; files = [] }; clock = 0; rng = 0 }

abbrev bufs : List Bytes
bufs = codes "he" ∷ codes "llo" ∷ []

pub start_good : IsWellFormed start.storage
start_good = record {
  in_range = λ q r h. ground (arith, file_at-end q);
  distinct = λ p q r h g. ground (arith, file_at-end p);
}

pub apart :
    Separate memory_view
      (blob_path memory toy (toy.id_at 0) ∷ meta_paths memory toy (codes "a" ∷ codes "b" ∷ []))
unfolding blob_path meta_path names split
apart = ((λ h. ground arith, (λ h. ground arith, tt)), ((λ h. ground arith, tt), (tt, tt)))

stores : (store memory toy (codes "a" ∷ codes "b" ∷ []) bufs start).1 ≡ ok tt
unfolding store cache_set now new_id blob_path meta_path put_metas finish write_blob write close
    close_metas InMemory.put components bytes_dec get_or_insert_dir create_file Tree.insert
    write_file file_write Meta.new Close.close
stores = refl

kept :
    Kept memory toy memory_view memory-IsLawful
      (codes "a" ∷ codes "b" ∷ [])
      (codes "hello")
      start
      (store memory toy (codes "a" ∷ codes "b" ∷ []) bufs start).0.storage
kept =
    store-Kept memory toy memory_view memory-IsLawful (codes "a" ∷ codes "b" ∷ []) bufs start
      start_good apart stores

store-Kept_example :
    Kept memory toy memory_view memory-IsLawful
      (codes "a" ∷ codes "b" ∷ [])
      (codes "hello")
      start
      (store memory toy (codes "a" ∷ codes "b" ∷ []) bufs start).0.storage
store-Kept_example =
    store-Kept memory toy memory_view memory-IsLawful (codes "a" ∷ codes "b" ∷ []) bufs start
      start_good apart stores

abbrev pub stored : World memory toy
stored = (store memory toy (codes "a" ∷ codes "b" ∷ []) bufs start).0

abbrev hit : Hit memory toy
hit =
    some (record {
      key = codes "b";
      reader = record { file_node = 0; offset = 0 };
      size_hint = some 5;
    })

hits : (get memory toy (codes "b" ∷ codes "c" ∷ []) stored).1 ≡ ok hit
unfolding stores read get entry_of blob_of touch read_meta InMemory.get read_exact exactly
    Meta.from_bytes Meta.set_latest_access reader file_size
hits = refl

get-store_reliable_example :
    (r : Hit memory toy) × ((get memory toy (codes "b" ∷ codes "c" ∷ []) stored).1 ≡ ok r)
    × IsHit memory toy memory_view memory-IsLawful toy-IsFaithful
        (codes "b")
        (Meta.new toy (toy.id_at 0) (toy.time_at 0))
        (concat bufs)
        (toy.time_at stored.clock)
        (get memory toy (codes "b" ∷ codes "c" ∷ []) stored).0.storage
        r
get-store_reliable_example =
    get-store_reliable memory toy memory_view memory-IsLawful memory-IsReliable toy-IsFaithful
      (codes "a" ∷ []) [] (codes "c" ∷ []) bufs (codes "b") start start_good apart stores

clear :
    AllApart memory toy memory_view memory-IsLawful
      (codes "b" ∷ codes "c" ∷ [])
      (codes "/blob/01/x")
unfolding meta_path names split
clear = (λ h. ground arith, (λ h. ground arith, tt))

get-content_example :
    memory_view.Good (get memory toy (codes "b" ∷ codes "c" ∷ []) stored).0.storage
    × (memory_view.content
          (get memory toy (codes "b" ∷ codes "c" ∷ []) stored).0.storage
          (codes "/blob/01/x")
        ≡ memory_view.content stored.storage (codes "/blob/01/x"))
get-content_example =
    get-content memory toy memory_view memory-IsLawful (codes "b" ∷ codes "c" ∷ [])
      (codes "/blob/01/x") stored kept.good clear

get-hit_example :
    IsHit memory toy memory_view memory-IsLawful toy-IsFaithful
      (codes "b")
      (Meta.new toy (toy.id_at 0) (toy.time_at 0))
      (codes "hello")
      (toy.time_at stored.clock)
      (get memory toy (codes "b" ∷ codes "c" ∷ []) stored).0.storage
      hit
unfolding Meta.new
get-hit_example =
    let k = kept in
    get-hit memory toy memory_view memory-IsLawful toy-IsFaithful (codes "b") (codes "c" ∷ [])
      (Meta.new toy (toy.id_at 0) (toy.time_at 0)) (codes "hello") stored k.good
      (record {
        coherent = new-IsCoherent toy toy-IsFaithful (toy.id_at 0) (toy.time_at 0) refl;
        meta_stored = k.metas.1.0;
        blob_stored = k.blob_content;
        apart = apart.0.1.0;
      })
      hit hits
