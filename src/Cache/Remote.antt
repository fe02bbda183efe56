-- ===== src/Cache/Remote.antt =====
-- cache/remote.rs: the cache behind the HTTP API of a server.
pub mod Loop
pub mod Session
pub mod Tests
use btdt.Prelude.{
  ℕ, zero, suc, ◌+◌, ◌*◌, Bool, true, false, ◌&&◌, Option, none, some, List, [], ◌∷◌, ◌++◌, Bytes,
  String, codes, same, if◌then◌else◌, length, not,
}
use btdt.Io.{
  Result, ok, err, ◌>>=◌, map_err, IoError, IoPathError, error_at, IoResult, invalid_data,
}
use btdt.Cache.{CacheHit}
use btdt.Util.Http.Error.{HttpResult, Stop, failed as stopped, panicked as stuck, into_io_error}
use btdt.Util.Http.Text.{eq_ignore_ascii_case}
use btdt.Util.Http.Hex.{wrap}
use btdt.Util.Http.Decimal.{parse_decimal}
use btdt.Util.Http.Source.{rest}
use btdt.Util.Http.Status
use btdt.Util.Http.Status.{HttpStatus}
use btdt.Util.Http.Header
use btdt.Util.Http.Header.{Header}
use btdt.Util.Http.Message
use btdt.Util.Http.Message.{
  MessageReader, awaiting_request_headers, awaiting_request_body, read_response_headers,
  read_response_body, chunked_transfer_encoding, TransferEncoding,
}
use btdt.Util.Http.Network.{Urls, Network}
use btdt.Util.Http.Request
use btdt.Util.Http.Request.{HttpRequest}
use btdt.Util.Http.Client

-- `RemoteCacheError`
pub data RemoteCacheError : Type 0 where
  missing_cache_id : RemoteCacheError
  http_error : ℕ → RemoteCacheError

-- A call fails; or it fails with an `io::Error::other` of a `RemoteCacheError`; or it panics.
pub data RemoteStop (E : Type 0) : Type 0 where
  failed : E → RemoteStop E
  refused : RemoteCacheError → RemoteStop E
  panicked : RemoteStop E
  -- The model's own: the loop over the headers ran out of turns.
  out_of_turns : RemoteStop E

abbrev pub RemoteResult : Type 0 → Type 0
RemoteResult A = Result A (RemoteStop IoPathError)

-- `map_err(HttpClientError::into)`, and then `with_path`
abbrev pub stop_at : Bytes → Stop → RemoteStop IoPathError
stop_at url (stopped e) = failed (error_at (into_io_error e) url)
stop_at url stuck = panicked

abbrev pub stop_io : Stop → RemoteStop IoError
stop_io (stopped e) = failed (into_io_error e)
stop_io stuck = panicked

-- The check of a status: the error of one that is no success.
unfoldable pub check_status : {E : Type 0} → HttpStatus → Result (Unit {0}) (RemoteStop E)
unfolding Status.is_success Status.code_u16
check_status status = elim (Status.is_success status) [
  | none ↦ err panicked
  | some true ↦ ok tt
  | some false ↦ elim (Status.code_u16 status) [
    | none ↦ err panicked
    | some code ↦ err (refused (http_error code))
  ]
]

-- `Operation`
pub data Operation : Type 0 where
  get_operation put_operation : Operation

unfoldable pub operation_name : Operation → Bytes
operation_name get_operation = codes "get"
operation_name put_operation = codes "put"

-- The biscuit_auth crate and the clock: `bearer` attenuates the token to an operation, a cache and an
-- expiration, and prints it in base 64; `none` is an error that is unwrapped.
pub record Tokens : Type 1 where
  pub Token : Type 0
  pub Time : Type 0
  pub now : Time
  pub checked_add : Time → ℕ → Option Time
  pub bearer : Bytes → Bytes → Time → Token → Option Bytes

-- What the headers say of the hit.
pub record Hints : Type 0 where
  pub size_hint : Option ℕ
  pub hit_key : Option Bytes

abbrev pub last : {A : Type 0} → List A → Option A
last [] = none
last (x ∷ xs) = elim (last xs) [ none ↦ some x | some y ↦ some y ]

unfoldable pub find_key : Bytes → List Bytes → Option Bytes
unfolding same
find_key v [] = none
find_key v (k ∷ keys) = let rest = find_key v keys in if same k v then some k else rest

abbrev pub is_none : {A : Type 0} → Option A → Bool
is_none none = true
is_none (some a) = false

unfoldable pub note_size : Header → Hints → HttpResult Hints
unfolding eq_ignore_ascii_case Header.key Header.value parse_decimal
note_size h hints =
    if is_none hints.size_hint && eq_ignore_ascii_case (Header.key h) (codes "content-length")
    then (Header.value h >>= λ v. ok (record hints { size_hint = parse_decimal wrap v }))
    else ok hints

unfoldable pub note_key : List Bytes → Header → Hints → HttpResult Hints
unfolding eq_ignore_ascii_case Header.key Header.value find_key
note_key keys h hints =
    if is_none hints.hit_key && eq_ignore_ascii_case (Header.key h) (codes "btdt-cache-key")
    then (Header.value h >>= λ v. ok (record hints { hit_key = find_key v keys }))
    else ok hints

-- The loop has found all that it looks for.
abbrev pub found_all : Hints → Bool
found_all hints = not (is_none hints.size_hint) && not (is_none hints.hit_key)

-- The `while` loop of `get`. A turn takes a byte off the stream or exhausts the headers; `none` is that
-- the loop ran out of turns.
unfoldable pub scan :
    ℕ
    → List Bytes
    → Hints
    → MessageReader read_response_headers
    → MessageReader read_response_headers × HttpResult (Option Hints)
unfolding note_size note_key Message.read_next_header
scan zero keys hints m = (m, ok none)
scan (suc fuel) keys hints m =
    let (m', r) = Message.read_next_header m in
    elim r [
      | err e ↦ (m', err e)
      | ok none ↦ (m', ok (some hints))
      | ok (some h) ↦ elim (note_size h hints >>= λ hints'. note_key keys h hints') [
        | err e ↦ (m', err e)
        | ok hints' ↦ elim (found_all hints') [
          | true ↦ (m', ok (some hints'))
          | false ↦ scan fuel keys hints' m'
        ]
      ]
    ]

module _ (U : Urls) (N : Network) (T : Tokens) where
  open U use {Url}
  open T use {Token, Time}

  pub record RemoteCache : Type 0 where
    pub base_url : Url
    pub cache_id : Bytes
    pub token : Token

  -- `RemoteCache::new`
  unfoldable pub new : Url → Token → Result RemoteCache RemoteCacheError
  new base_url token = elim (U.path_segments base_url) [
    | none ↦ err missing_cache_id
    | some segments ↦ elim (last segments) [
      | none ↦ err missing_cache_id
      | some cache_id ↦ ok (record { base_url = base_url; cache_id = cache_id; token = token })
    ]
  ]

  abbrev pub with_keys : List Bytes → Url → Url
  with_keys [] url = url
  with_keys (key ∷ keys) url = with_keys keys (U.append_pair (codes "key") key url)

  unfoldable pub authorization : RemoteCache → Operation → HttpResult Bytes
  unfolding operation_name
  authorization c operation = Client.or_panic (T.checked_add T.now (5 * 60)) >>= λ expiration.
      Client.or_panic (T.bearer (operation_name operation) c.cache_id expiration c.token)
      >>= λ bearer. ok (codes "Bearer " ++ bearer)

  unfoldable pub add_auth_header :
      {E : Option TransferEncoding}
      → RemoteCache
      → Operation
      → HttpRequest N (awaiting_request_headers E)
      → HttpRequest N (awaiting_request_headers E) × HttpResult (Unit {0})
  unfolding authorization Request.header
  add_auth_header c operation request = elim (authorization c operation) [
    | err e ↦ (request, err e)
    | ok value ↦ Request.header N (codes "Authorization") value request
  ]

  -- The request of `get` up to its status.
  unfoldable pub try_get :
      RemoteCache → Url → HttpResult (HttpStatus × MessageReader read_response_headers)
  unfolding add_auth_header Client.get Request.no_body Message.read_status
  try_get c url = Client.get U N url >>= λ request.
      let (request', r) = add_auth_header c get_operation request in
      r >>= λ u. Request.no_body N request' >>= λ response. Message.read_status response

  -- `get` after a status that is a success and not 204.
  -- What follows the loop in `get`
  unfoldable pub hit_from :
      Bytes
      → Hints
      → MessageReader read_response_headers
      → RemoteResult (Option (CacheHit (MessageReader read_response_body)))
  unfolding Message.read_body
  hit_from url hints m = map_err (stop_at url) (Message.read_body m) >>= λ reader.
      elim hints.hit_key [
        | none ↦ err (
            failed (
              error_at
                (record {
                  kind = invalid_data;
                  message = "missing Btdt-Cache-Key header in response";
                })
                url))
        | some key ↦ ok (some (record { key = key; reader = reader; size_hint = hints.size_hint }))
      ]

  unfoldable pub hit_of :
      Bytes
      → List Bytes
      → MessageReader read_response_headers
      → RemoteResult (Option (CacheHit (MessageReader read_response_body)))
  unfolding scan hit_from
  hit_of url keys m =
      let (m', r) =
        scan (suc (suc (length (rest m.reader)))) keys (record { size_hint = none; hit_key = none })
          m in
      map_err (stop_at url) r >>= λ found. elim found [
        | none ↦ err out_of_turns
        | some hints ↦ hit_from url hints m'
      ]

  unfoldable pub get :
      RemoteCache → List Bytes → RemoteResult (Option (CacheHit (MessageReader read_response_body)))
  unfolding try_get check_status hit_of same Status.code
  get c [] = ok none
  get c (key ∷ keys) =
      let url = with_keys (key ∷ keys) c.base_url in
      map_err (stop_at (U.as_str url)) (try_get c url) >>= λ r. check_status r.0 >>= λ u.
      if same (Status.code r.0) (codes "204")
      then ok none
      else hit_of (U.as_str url) (key ∷ keys) r.1

  -- `RemoteWriter`
  abbrev pub RemoteWriter : Type 0
  RemoteWriter = HttpRequest N (awaiting_request_body chunked_transfer_encoding)

  unfoldable pub try_set : RemoteCache → Url → HttpResult RemoteWriter
  unfolding add_auth_header Client.put Request.body
  try_set c url = Client.put U N url >>= λ request.
      let (request', r) = add_auth_header c put_operation request in
      r >>= λ u. Request.body N request'

  unfoldable pub set : RemoteCache → List Bytes → RemoteResult RemoteWriter
  unfolding try_set
  set c keys =
      let url = with_keys keys c.base_url in map_err (stop_at (U.as_str url)) (try_set c url)

  unfoldable pub write : Bytes → RemoteWriter → RemoteWriter × IoResult ℕ
  unfolding Request.write_chunk
  write buf w = Request.write_chunk N buf w

  unfoldable pub flush : RemoteWriter → RemoteWriter × IoResult (Unit {0})
  unfolding Request.flush
  flush w = Request.flush N w

  unfoldable pub close : RemoteWriter → Result (Unit {0}) (RemoteStop IoError)
  unfolding Request.response Message.read_status check_status
  close w = map_err stop_io (Request.response N w) >>= λ response.
      map_err stop_io (Message.read_status response) >>= λ r. check_status r.0
