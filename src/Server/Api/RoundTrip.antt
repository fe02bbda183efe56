-- ===== src/Server/Api/RoundTrip.antt =====
-- What a client of the server's API puts into a cache in memory is what it gets back from it.
use btdt.Prelude.{
  ℕ, ◌≡◌, refl, ap, sym, ◌∙◌, List, [], ◌∷◌, ◌++◌, Bytes, some, none, length, concat, inl, inr,
}
use btdt.Io.{Result, ok, err, Result-cases, err-ok}
use btdt.Storage.InMemory.{InMemoryStorage}
use btdt.Storage.InMemory.Implements.{memory, memory_view, memory-IsLawful}
use btdt.Storage.InMemory.Reliable.{memory-IsReliable}
use btdt.Storage.Interface.{Separate}
use btdt.Cache.{CacheHit}
use btdt.Cache.Externals.{IsFaithful}
use btdt.Cache.Local
use btdt.Cache.Local.{World, then_io, blob_path, meta_path}
use btdt.Cache.Local.Set.{meta_paths}
use btdt.Cache.Local.Session.{store, finish, write_blob}
use btdt.Cache.Local.Reliable.{get-store_reliable}
use btdt.Cache.Dispatcher
use btdt.Cache.Dispatcher.{
  Backends, Worlds, CacheDispatcher, CacheWriter, in_memory, to_memory, of_memory, Reader,
}
use btdt.Cache.Dispatcher.Numbered.{put_at, put_at_self, put_at_twice, put_at_same}
use btdt.Server.Api.{
  Biscuits, Api, ApiError, internal_server_error, authorize, get_from_cache, put_into_cache, copy,
  store_body, after_copy, RequestBody, cache_of, get_from_cache_operation, put_into_cache_operation,
  cache_hit, PutResponse, no_content, from,
}

module _ (B : Backends) (K : Biscuits) where
  open B use {externals}

  abbrev at_storage : ℕ → Worlds B → InMemoryStorage → Worlds B
  at_storage i w s = record w {
    in_memory = put_at i (record (w.in_memory i) { storage = s }) w.in_memory;
  }

  copy-write_blob :
      (pieces : List Bytes) (i : ℕ) (c : Local.CacheWriter memory externals) (w : Worlds B)
      → copy B K pieces none (to_memory i c) w ≡ (
        (
          at_storage i w (write_blob memory externals c pieces (w.in_memory i).storage).0,
          to_memory i c,
        ),
        (write_blob memory externals c pieces (w.in_memory i).storage).1,
      )
  unfolding copy write_blob Dispatcher.write
  copy-write_blob [] i c w = rw (put_at_same i w.in_memory) refl
  copy-write_blob (piece ∷ pieces) i c w =
      let s = (Local.write memory externals c piece (w.in_memory i).storage).0 in
      let v : World memory externals = record (w.in_memory i) { storage = s } in
      let t = (write_blob memory externals c pieces s).0 in
      copy-write_blob pieces i c (at_storage i w s)
      ∙ rw
          (
            put_at_self i v w.in_memory,
            put_at_twice i v (record (w.in_memory i) { storage = t }) w.in_memory,
          )
          refl

  -- What the handler answers after a session over the storage.
  abbrev answer : {E : Type 0} → Result (Unit {0}) E → Result PutResponse ApiError
  answer (ok u) = ok no_content
  answer (err e) = err internal_server_error

  -- The body of a request that arrives in full.
  abbrev pub whole : List Bytes → RequestBody
  whole pieces = record { pieces = pieces; failure = none }

  store_body-finish :
      (pieces : List Bytes) (i : ℕ) (c : Local.CacheWriter memory externals) (w : Worlds B)
      → store_body B K (whole pieces) (to_memory i c) w ≡ (
        at_storage i w (finish memory externals pieces c (w.in_memory i).storage).0,
        answer (finish memory externals pieces c (w.in_memory i).storage).1,
      )
  unfolding store_body finish Dispatcher.close
  store_body-finish pieces i c w =
      let f = w.in_memory in
      let s' = (write_blob memory externals c pieces (f i).storage).0 in
      let v : World memory externals = record (f i) { storage = s' } in
      let t = (Local.close memory externals c s').0 in
      let self = put_at_self i v f in
      let twice = put_at_twice i v (record (f i) { storage = t }) f in
      ap (after_copy B K) (copy-write_blob pieces i c w)
      ∙ elim (Result-cases (write_blob memory externals c pieces (f i).storage).1) [
        | inr (x, e) ↦ rw (finish, e) refl
        | inl (u, e) ↦ elim (Result-cases (Local.close memory externals c s').1) [
          | inl (u', e') ↦ rw (finish, e, self, twice, e') refl
          | inr (x, e') ↦ rw (finish, e, self, twice, e') refl
        ]
      ]

  -- The handler is the session of the cache.
  put_into_cache-store :
      (api : Api B K) (i : ℕ) (cache_id token : Bytes) (keys pieces : List Bytes) (w : Worlds B)
      → authorize B K token put_into_cache_operation cache_id ≡ ok tt
      → cache_of B K api.caches cache_id ≡ some (in_memory i)
      → put_into_cache B K api cache_id keys (whole pieces) token w ≡ (
        record w {
          in_memory = put_at i (store memory externals keys pieces (w.in_memory i)).0 w.in_memory;
        },
        answer (store memory externals keys pieces (w.in_memory i)).1,
      )
  unfolding put_into_cache store Dispatcher.set
  put_into_cache-store api i cache_id token keys pieces w a c =
      let f = w.in_memory in
      let v = (Local.set memory externals keys (f i)).0 in
      elim (Result-cases (Local.set memory externals keys (f i)).1) [
        | inr (x, e) ↦ rw (put_into_cache, a, c, e, store) refl
        | inl (x, e) ↦
            let t = (finish memory externals pieces x v.storage).0 in
            rw (put_into_cache, a, c, e, store)
              (store_body-finish pieces i x (record w { in_memory = put_at i v f })
                ∙ rw (put_at_self i v f, put_at_twice i v (record v { storage = t }) f) refl)
      ]

  answer-ok : {E : Type 0} (r : Result (Unit {0}) E) → answer r ≡ ok no_content → r ≡ ok tt
  answer-ok (ok u) h = refl
  answer-ok (err e) h = absurd (err-ok internal_server_error no_content h)

  get_from_cache-get :
      (api : Api B K) (i : ℕ) (cache_id token : Bytes) (keys : List Bytes) (w : Worlds B)
      (hit : CacheHit memory.Reader)
      → authorize B K token get_from_cache_operation cache_id ≡ ok tt
      → cache_of B K api.caches cache_id ≡ some (in_memory i)
      → (Local.get memory externals keys (w.in_memory i)).1 ≡ ok (some hit)
      → get_from_cache B K api cache_id keys token w ≡ (
        record w {
          in_memory = put_at i (Local.get memory externals keys (w.in_memory i)).0 w.in_memory;
        },
        ok (cache_hit (of_memory i hit.reader) hit.size_hint hit.key),
      )
  unfolding get_from_cache Dispatcher.get from
  get_from_cache-get api i cache_id token keys w hit a c e = rw (get_from_cache, a, c, e) refl

  -- Where a PUT of a body under some keys to a cache in memory was answered with 204, a GET with one of
  -- these keys first and a token that allows it is answered with 200 for that key: it reads all of the
  -- body, and its length is the body's. The paths of the entry have to be different ones.
  pub get_from_cache-put_into_cache :
      (F : IsFaithful externals) (api : Api B K) (i : ℕ) (cache_id put_token get_token key : Bytes)
      (pre post others pieces : List Bytes) (w : Worlds B)
      → authorize B K put_token put_into_cache_operation cache_id ≡ ok tt
      → authorize B K get_token get_from_cache_operation cache_id ≡ ok tt
      → cache_of B K api.caches cache_id ≡ some (in_memory i)
      → memory_view.Good (w.in_memory i).storage
      → Separate memory_view (
          blob_path memory externals (externals.id_at (w.in_memory i).rng)
          ∷ meta_paths memory externals (pre ++ (key ∷ post)))
      → let put =
          put_into_cache B K api cache_id (pre ++ (key ∷ post)) (whole pieces) put_token w in
        put.1 ≡ ok no_content
        → (reader : memory.Reader) × ((get_from_cache B K api cache_id
              (key ∷ others)
              get_token
              put.0).1
            ≡ ok (cache_hit (of_memory i reader) (some (length (concat pieces))) key))
          × (memory.read_exact reader
                (length (concat pieces))
                ((get_from_cache B K api cache_id (key ∷ others) get_token put.0).0.in_memory
                  i).storage
              ≡ ok (concat pieces))
  get_from_cache-put_into_cache F api i cache_id put_token get_token key pre post others pieces w a
        b c good apart done =
      let keys = pre ++ (key ∷ post) in
      let p = put_into_cache-store api i cache_id put_token keys pieces w a c in
      let W = (store memory externals keys pieces (w.in_memory i)).0 in
      let self = put_at_self i W w.in_memory in
      let w' : Worlds B = record w { in_memory = put_at i W w.in_memory } in
      let (r, e, h) =
        get-store_reliable memory externals memory_view memory-IsLawful memory-IsReliable F pre post
          others pieces key (w.in_memory i) good apart
          (answer-ok (store memory externals keys pieces (w.in_memory i)).1
            (sym (ap (λ x. x.1) p) ∙ done)) in
      let q =
        get_from_cache-get api i cache_id get_token (key ∷ others) w' h.hit b c
          (rw self (e ∙ ap ok h.is_some)) in
      rw (p, q)
        (
          h.hit.reader,
          rw (h.hint, h.key_eq) refl,
          rw
              (
                put_at_self i (Local.get memory externals (key ∷ others) (w'.in_memory i)).0
                    w'.in_memory,
                self,
              )
              h.reads,
        )
