-- ===== src/Server/Api.antt =====
-- btdt-server/src/app/api.rs and get_from_cache.rs: the handlers of the HTTP API.
pub mod RoundTrip
pub mod Tests
use btdt.Prelude.{ℕ, Bool, Option, none, some, List, [], ◌∷◌, Bytes, codes, same, if◌then◌else◌}
use btdt.Io.{Result, ok, err, ◌>>=◌, map_err, IoError, IoResult}
use btdt.Cache.{CacheHit}
use btdt.Cache.Remote.{RemoteStop}
use btdt.Cache.Dispatcher
use btdt.Cache.Dispatcher.{Backends, Worlds, CacheDispatcher, CacheWriter, Reader}

-- `Operation`
pub data Operation : Type 0 where
  get_from_cache_operation put_into_cache_operation : Operation

unfoldable pub as_str : Operation → Bytes
as_str get_from_cache_operation = codes "get"
as_str put_into_cache_operation = codes "put"

-- The biscuit_auth crate: `Biscuit::from_base64` with the public key, the authorizer for an operation
-- and a cache, and its verdict. `none` of `authorizer` is the panic of `expect`.
pub record Biscuits : Type 1 where
  pub Biscuit : Type 0
  pub Authorizer : Type 0
  pub from_base64 : Bytes → Option Biscuit
  pub authorizer : Bytes → Bytes → Biscuit → Option Authorizer
  pub authorize : Authorizer → Bool

-- `poem::Error` by its status, and a panic of the handler.
pub data ApiError : Type 0 where
  unauthorized forbidden internal_server_error panicked : ApiError

pub data GetFromCacheResponse (R : Type 0) : Type 0 where
  cache_miss cache_not_found : GetFromCacheResponse R
  cache_hit : R → Option ℕ → Bytes → GetFromCacheResponse R

-- `From<CacheHit>`
unfoldable pub from : {R : Type 0} → CacheHit R → GetFromCacheResponse R
from hit = cache_hit hit.reader hit.size_hint hit.key

pub data PutResponse : Type 0 where
  no_content not_found : PutResponse

-- A failure inside of a cache.
abbrev pub internal : {A E : Type 0} → Result A (RemoteStop E) → Result A ApiError
internal r = map_err inner r
  where
    inner : {E : Type 0} → RemoteStop E → ApiError
    inner (RemoteStop.failed e) = internal_server_error
    inner (RemoteStop.refused e) = internal_server_error
    inner RemoteStop.panicked = panicked
    inner RemoteStop.out_of_turns = panicked

-- The body of a request: the pieces that arrive, and how it ends.
pub record RequestBody : Type 0 where
  pub pieces : List Bytes
  pub failure : Option IoError

module _ (B : Backends) (K : Biscuits) where
  pub record Api : Type 0 where
    pub caches : List (Bytes × CacheDispatcher B)

  abbrev pub cache_of : List (Bytes × CacheDispatcher B) → Bytes → Option (CacheDispatcher B)
  cache_of [] id = none
  cache_of ((name, cache) ∷ caches) id =
      let rest = cache_of caches id in if same name id then some cache else rest

  -- `BiscuitBearerAuth::authorize`
  unfoldable pub authorize : Bytes → Operation → Bytes → Result (Unit {0}) ApiError
  unfolding as_str
  authorize token operation cache_id = elim (K.from_base64 token) [
    | none ↦ err unauthorized
    | some biscuit ↦ elim (K.authorizer (as_str operation) cache_id biscuit) [
      | none ↦ err panicked
      | some authorizer ↦ if K.authorize authorizer then ok tt else err forbidden
    ]
  ]

  abbrev pub response_of : Option (CacheHit (Reader B)) → GetFromCacheResponse (Reader B)
  response_of none = cache_miss
  response_of (some hit) = from hit

  unfoldable pub get_from_cache :
      Api
      → Bytes
      → List Bytes
      → Bytes
      → Worlds B
      → Worlds B × Result (GetFromCacheResponse (Reader B)) ApiError
  unfolding authorize Dispatcher.get from
  get_from_cache api cache_id keys token w =
      elim (authorize token get_from_cache_operation cache_id) [
        | err e ↦ (w, err e)
        | ok u ↦ elim (cache_of api.caches cache_id) [
          | none ↦ (w, ok cache_not_found)
          | some cache ↦
              let (w', r) = Dispatcher.get B cache keys w in
              (w', internal r >>= λ hit. ok (response_of hit))
        ]
      ]

  -- `io::copy` of the body into the writer
  unfoldable pub copy :
      List Bytes
      → Option IoError
      → CacheWriter B
      → Worlds B
      → (Worlds B × CacheWriter B) × IoResult (Unit {0})
  unfolding Dispatcher.write
  copy [] none c w = ((w, c), ok tt)
  copy [] (some e) c w = ((w, c), err e)
  copy (piece ∷ pieces) failure c w =
      let ((w', c'), r) = Dispatcher.write B c piece w in
      elim r [ err e ↦ ((w', c'), err e) | ok u ↦ copy pieces failure c' w' ]

  -- An error or a panic of the task that writes.
  abbrev pub from_blocking : {A E : Type 0} → Result A E → Result A ApiError
  from_blocking r = map_err (λ e. internal_server_error) r

  -- What the handler does with the writer.
  abbrev pub after_copy :
      (Worlds B × CacheWriter B) × IoResult (Unit {0}) → Worlds B × Result PutResponse ApiError
  after_copy ((w, c), err e) = (w, err internal_server_error)
  after_copy ((w, c), ok u) =
      let (w', r) = Dispatcher.close B c w in (w', from_blocking r >>= λ u. ok no_content)

  unfoldable pub store_body :
      RequestBody → CacheWriter B → Worlds B → Worlds B × Result PutResponse ApiError
  unfolding copy Dispatcher.close
  store_body body c w = after_copy (copy body.pieces body.failure c w)

  unfoldable pub put_into_cache :
      Api
      → Bytes
      → List Bytes
      → RequestBody
      → Bytes
      → Worlds B
      → Worlds B × Result PutResponse ApiError
  unfolding authorize Dispatcher.set store_body
  put_into_cache api cache_id keys body token w =
      elim (authorize token put_into_cache_operation cache_id) [
        | err e ↦ (w, err e)
        | ok u ↦ elim (cache_of api.caches cache_id) [
          | none ↦ (w, ok not_found)
          | some cache ↦
              let (w', r) = Dispatcher.set B cache keys w in
              elim (internal r) [ err e ↦ (w', err e) | ok c ↦ store_body body c w' ]
        ]
      ]
