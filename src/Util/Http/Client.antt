-- ===== src/Util/Http/Client.antt =====
-- util/http/mod.rs: `HttpClient`, which connects and sends the request line and the first headers.
pub mod Sent
pub mod Secure
use btdt.Prelude.{
  ℕ, Bool, true, false, Option, none, some, List, [], ◌∷◌, ◌++◌, Bytes, codes, same, String, ◌||◌,
  not, if◌then◌else◌,
}
use btdt.Prelude.Utf8.{is_nil}
use btdt.Io.{Result, ok, err, ◌>>=◌, map_err}
use btdt.Util.Http.Error.{
  HttpClientError, invalid_scheme, missing_host, unsupported_feature, HttpResult, Stop, failed,
  panicked,
}
use btdt.Util.Http.Text.{crlf, http_version}
use btdt.Util.Http.Message.{
  State, awaiting_request_headers, no_body_transfer_encoding, TransferEncoding,
}
use btdt.Util.Http.Network.{Urls, Network}
use btdt.Util.Http.Request.{HttpRequest, write_pieces, header, from_io}

-- `concat!("btdt/", env!("CARGO_PKG_VERSION"))`
abbrev pub user_agent : Bytes
user_agent = codes "btdt/0.4.4"

abbrev pub or_error : {A : Type 0} → Option A → HttpClientError → HttpResult A
or_error none e = err (failed e)
or_error (some a) e = ok a

abbrev pub or_panic : {A : Type 0} → Option A → HttpResult A
or_panic none = err panicked
or_panic (some a) = ok a

abbrev pub or_failed : {A : Type 0} → Result A HttpClientError → HttpResult A
or_failed r = map_err failed r

unfoldable pub use_tls : String → HttpResult Bool
unfolding same
use_tls scheme =
    if same (codes scheme) (codes "http")
    then ok false
    else if same (codes scheme) (codes "https")
    then ok true
    else err (failed (invalid_scheme scheme))

abbrev pub is_some : {A : Type 0} → Option A → Bool
is_some none = false
is_some (some a) = true

module _ (U : Urls) (N : Network) where
  open U use {Url}
  open N use {Stream, Tcp}

  unfoldable pub secure : Bool → Bytes → Tcp → HttpResult Stream
  secure false host tcp = ok (N.buffered tcp)
  secure true host tcp = or_failed (N.server_name host) >>= λ name.
      or_failed (N.client_connection name) >>= λ connection. ok (N.buffered_tls connection tcp)

  unfoldable pub connect : Url → HttpResult Stream
  unfolding use_tls secure
  connect url = use_tls (U.scheme url) >>= λ tls.
      if not (is_nil (U.username url)) || is_some (U.password url)
      then err (failed (unsupported_feature "username/password in URL"))
      else (or_error (U.host_str url) missing_host >>= λ host.
          or_panic (U.port_or_known_default url) >>= λ port.
          from_io (N.tcp_connect host port) >>= λ tcp. secure tls host tcp)

  -- The pieces of the request line.
  abbrev pub query_pieces : Option Bytes → List Bytes
  query_pieces none = []
  query_pieces (some query) = codes "?" ∷ query ∷ []

  abbrev pub request_line : Bytes → Url → List Bytes
  request_line method url =
      (method ∷ codes " " ∷ U.path url ∷ [])
      ++ (query_pieces (U.query url) ++ (codes " " ∷ http_version ∷ crlf ∷ []))

  -- A header and then the next step, if it was sent.
  abbrev pub with_header :
      {T : Option TransferEncoding} {A : Type 0}
      → Bytes
      → Bytes
      → HttpRequest N (awaiting_request_headers T)
      → (HttpRequest N (awaiting_request_headers T) → HttpResult A)
      → HttpResult A
  with_header key value req next = let (req', r) = header N key value req in r >>= λ u. next req'

  unfoldable pub method : Bytes → Url → HttpResult (HttpRequest N (awaiting_request_headers none))
  unfolding connect write_pieces header
  method name url = connect url >>= λ connection.
      let (stream, r) = write_pieces N (request_line name url) connection in
      from_io r >>= λ u. or_error (U.host_str url) missing_host >>= λ host.
      with_header (codes "Host") host (record { stream = stream })
        λ req.
          with_header (codes "Connection") (codes "close") req
            λ req'. with_header (codes "User-Agent") user_agent req' λ req''. ok req''

  unfoldable pub get :
      Url → HttpResult (HttpRequest N (awaiting_request_headers (some no_body_transfer_encoding)))
  unfolding method
  get url = method (codes "GET") url >>= λ client. ok (record { stream = client.stream })

  unfoldable pub post : Url → HttpResult (HttpRequest N (awaiting_request_headers none))
  unfolding method
  post url = method (codes "POST") url

  unfoldable pub put : Url → HttpResult (HttpRequest N (awaiting_request_headers none))
  unfolding method
  put url = method (codes "PUT") url
