-- ===== src/Util/Http/Error.antt =====
-- util/http/error.rs: the errors of the HTTP client, and what they are as I/O errors.
use Prim.Native.String.{◌++◌}
use btdt.Prelude.{String}
use btdt.Io.{
  IoError, Result, ErrorKind, invalid_data as invalid_data_kind, invalid_input, unsupported, other,
}

-- A TLS error of rustls by its text.
pub data HttpClientError : Type 0 where
  invalid_scheme invalid_dns_name : String → HttpClientError
  missing_host : HttpClientError
  unsupported_feature : String → HttpClientError
  io_error : IoError → HttpClientError
  tls_error : String → HttpClientError

unfoldable pub invalid_data : String → HttpClientError
invalid_data msg = io_error (record { kind = invalid_data_kind; message = msg })

-- `Display`
unfoldable pub text_of : HttpClientError → String
text_of (invalid_scheme scheme) = "unknown URL scheme: " ++ scheme
text_of (invalid_dns_name hostname) = "invalid DNS name: " ++ hostname
text_of missing_host = "missing host"
text_of (unsupported_feature feature) = "unsupported feature: " ++ feature
text_of (io_error e) = "I/O error: " ++ e.message
text_of (tls_error e) = "TLS error: " ++ e

-- `From<HttpClientError> for io::Error`
unfoldable pub kind_of : HttpClientError → ErrorKind
kind_of (invalid_scheme s) = invalid_input
kind_of missing_host = invalid_input
kind_of (unsupported_feature s) = unsupported
kind_of (io_error e) = e.kind
kind_of (invalid_dns_name s) = invalid_input
kind_of (tls_error s) = other

unfoldable pub into_io_error : HttpClientError → IoError
unfolding kind_of text_of
into_io_error (io_error e) = e
into_io_error e = record { kind = kind_of e; message = text_of e }

-- A call of the client fails, or panics where it cuts a text out of bounds.
pub data Stop : Type 0 where
  failed : HttpClientError → Stop
  panicked : Stop

abbrev pub HttpResult : Type 0 → Type 0
HttpResult A = Result A Stop
