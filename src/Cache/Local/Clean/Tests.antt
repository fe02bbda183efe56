-- ===== src/Cache/Local/Clean/Tests.antt =====
-- The theorems about `LocalCache::clean` of local.rs over the storage in memory, and runs of it.
use btdt.Prelude.{◌≡◌, refl, false, none, some, List, [], ◌∷◌, codes, bytes_dec}
use btdt.Io.{ok, err, error_at}
use btdt.Storage.InMemory
use btdt.Storage.InMemory.{no_such}
use btdt.Storage.InMemory.Tree
use btdt.Storage.InMemory.Tree.{get_or_insert_dir, create_file}
use btdt.Storage.InMemory.PathIter.{components}
use btdt.Storage.InMemory.FileNode.{
  write as file_write, reader, read_exact, exactly, read, size as file_size,
}
use btdt.Storage.InMemory.View.{write_file}
use btdt.Util.Close
use btdt.Cache.Meta
use btdt.Cache.Local.{
  new_id, now, set as cache_set, put_metas, write, close, close_metas, blob_path, read_meta,
}
use btdt.Cache.Local.Session.{finish, write_blob, store}
use btdt.Cache.Local.Clean.Heap.{pop}
use btdt.Cache.Local.Clean.{delete_blob, delete_keys, evict_all, clean_in}
use btdt.Storage.InMemory.Implements.{memory}
use btdt.Cache.Local.{meta_path}
use btdt.Cache.Local.Tests.{toy, start, stored}
use btdt.Cache.Local.Clean.{clean, total, evict_all, cutoff_of, evict, stopped}
use btdt.Cache.Local.Clean.Gather.{Blob, gather, failed, blob_sizes, blobs_of, iter_subdir_files}

abbrev found : List (Blob memory toy)
found =
    record {
      latest_access = false;
      size = 5;
      blob_id = codes "0123456789abcdef";
      keys = codes "a" ∷ codes "b" ∷ [];
    }
    ∷ []

-- A cache that nothing was stored in yet has no directories, and cannot be cleaned.
clean_fresh :
    (clean memory toy none (some 4) start).1
    ≡ err (stopped (failed (error_at no_such (codes "blob"))))
unfolding clean gather iter_subdir_files InMemory.list components bytes_dec Tree.get
clean_fresh = refl

-- A cache whose one blob is larger than the limit is empty afterwards.
clean_stored :
    (gather memory toy (clean memory toy none (some 4) stored).0.storage ≡ ok [])
    × ((clean memory toy none (some 4) stored).1 ≡ ok tt)
unfolding clean gather iter_subdir_files blob_sizes blobs_of InMemory.list components bytes_dec
    store cache_set now new_id blob_path meta_path put_metas finish write_blob write close
    close_metas InMemory.put get_or_insert_dir create_file Tree.insert write_file file_write
    Meta.new Close.close clean_in evict_all cutoff_of evict pop delete_blob delete_keys
    InMemory.delete Tree.delete Tree.remove read_meta InMemory.get read_exact exactly read
    Meta.from_bytes Meta.latest_access reader file_size total
clean_stored = (refl, refl)
