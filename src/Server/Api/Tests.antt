-- ===== src/Server/Api/Tests.antt =====
-- The theorems about the server's API on a server with one cache in memory.
use btdt.Prelude.{◌≡◌, refl, some, List, [], ◌∷◌, Bytes, codes, same, bytes_dec, concat, length}
use btdt.Io.{ok}
use btdt.Storage.InMemory
use btdt.Storage.InMemory.Implements.{memory}
use btdt.Storage.InMemory.PathIter.{components}
use btdt.Storage.InMemory.Tree
use btdt.Storage.InMemory.Tree.{end, get_or_insert_dir, create_file}
use btdt.Storage.InMemory.View.{write_file}
use btdt.Storage.InMemory.FileNode.{write as file_write}
use btdt.Util.Close
use btdt.Util.Http.Tests.{net, urls}
use btdt.Cache.Meta
use btdt.Cache.Local
use btdt.Cache.Local.{blob_path, meta_path}
use btdt.Cache.Local.Tests.{toy, toy-IsFaithful, start, start_good, apart}
use btdt.Cache.Remote.Tests.{tokens}
use btdt.Cache.Dispatcher
use btdt.Cache.Dispatcher.Numbered.{put_at}
use btdt.Cache.Dispatcher.{Backends, Worlds, in_memory, of_memory}
use btdt.Server.Api.{
  cache_of, Biscuits, Api, authorize, as_str, get_from_cache, put_into_cache, store_body, copy,
  no_content, cache_hit, get_from_cache_operation, put_into_cache_operation,
}
use btdt.Server.Api.RoundTrip.{get_from_cache-put_into_cache, whole}

-- The disk is one more storage in memory; a token is the operation that it allows.
abbrev pub backends : Backends
backends = record {
  disk = memory;
  externals = toy;
  urls = urls;
  network = net (λ s. []);
  tokens = tokens;
}

abbrev biscuits : Biscuits
biscuits = record {
  Biscuit = Bytes;
  Authorizer = Bytes × Bytes;
  from_base64 = λ token. some token;
  authorizer = λ operation cache_id token. some (operation, token);
  authorize = λ a. same a.0 a.1;
}

abbrev api : Api backends biscuits
api = record { caches = (codes "c", in_memory 0) ∷ [] }

abbrev pub worlds : Worlds backends
worlds = record { in_memory = λ i. start; filesystem = λ i. start }

abbrev pieces : List Bytes
pieces = codes "he" ∷ codes "llo" ∷ []

may_put : authorize backends biscuits (codes "put") put_into_cache_operation (codes "c") ≡ ok tt
unfolding authorize as_str same bytes_dec
may_put = refl

may_get : authorize backends biscuits (codes "get") get_from_cache_operation (codes "c") ≡ ok tt
unfolding authorize as_str same bytes_dec
may_get = refl

puts :
    (put_into_cache backends biscuits api
      (codes "c")
      (codes "a" ∷ codes "b" ∷ [])
      (whole backends biscuits pieces)
      (codes "put")
      worlds).1
    ≡ ok no_content
unfolding put_into_cache authorize as_str same bytes_dec Dispatcher.set Local.set Local.now
    Local.new_id blob_path meta_path Local.put_metas store_body copy Dispatcher.write
    Dispatcher.close Local.write Local.close Local.close_metas InMemory.put components
    get_or_insert_dir create_file Tree.insert write_file file_write Meta.new Close.close put_at
puts = refl

found : cache_of backends biscuits api.caches (codes "c") ≡ some (in_memory 0)
unfolding same bytes_dec
found = refl

get_from_cache-put_into_cache_example :
    let put =
      put_into_cache backends biscuits api
        (codes "c")
        (codes "a" ∷ codes "b" ∷ [])
        (whole backends biscuits pieces)
        (codes "put")
        worlds in
    (reader : memory.Reader) × ((get_from_cache backends biscuits api
        (codes "c")
        (codes "b" ∷ codes "x" ∷ [])
        (codes "get")
        put.0).1
      ≡ ok (cache_hit (of_memory 0 reader) (some (length (concat pieces))) (codes "b")))
    × (memory.read_exact reader
          (length (concat pieces))
          ((get_from_cache backends biscuits api
              (codes "c")
              (codes "b" ∷ codes "x" ∷ [])
              (codes "get")
              put.0).0.in_memory
            0).storage
        ≡ ok (concat pieces))
get_from_cache-put_into_cache_example =
    get_from_cache-put_into_cache backends biscuits toy-IsFaithful api 0 (codes "c") (codes "put")
      (codes "get") (codes "b") (codes "a" ∷ []) [] (codes "x" ∷ []) pieces worlds may_put may_get
      found start_good apart puts
