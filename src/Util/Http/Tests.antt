-- ===== src/Util/Http/Tests.antt =====
-- The theorems about util/http on concrete connections and streams.
use btdt.Prelude.{
  ◌≡◌, refl, ℕ, true, false, none, some, List, [], ◌∷◌, ◌++◌, Bytes, codes, length, arith, concat,
  same, bytes_dec,
}
use btdt.Io.{◌>>=◌, ok, err}
use btdt.Util.Http.Error.{panicked}
use btdt.Util.Http.Status
use btdt.Util.Http.Header
use btdt.Util.Http.Header.{find_visible, rfind_visible}
use btdt.Prelude.Utf8.{chars, is_whitespace, is_char_boundary, is_continuation, within}
use btdt.Util.Http.Text.{crlf, starts_with, byte_at, find_byte, slice}
use btdt.Util.Http.Hex.{format_hex, upper_hex, digit}
use btdt.Util.Http.Source.{Source}
use btdt.Util.Http.Message
use btdt.Util.Http.Message.{
  MessageReader, chunked, fixed_size, read_response_body, read_response_headers,
  read_response_status, awaiting_request_headers, skip_headers, read_next_header,
}
use btdt.Util.Http.Message.Progress.{Ended, skip_headers-Ended}
use btdt.Util.Http.Body.{Body, read_all}
use btdt.Util.Http.Body.Chunked.{Pending, read_all-Pending}
use btdt.Util.Http.Body.Sized.{read_all-Sized}
use btdt.Util.Http.Body.Truncated.{read_all-Truncated}
use btdt.Util.Http.Network.{Urls, Network}
use btdt.Util.Http.Request.{
  HttpRequest, write_pieces, header, body, write_chunk, response, into_reader,
}
use btdt.Util.Http.Request.Sent.{Sends, send_chunked, write_bufs}
use btdt.Util.Http.Client.{connect, use_tls, secure}
use btdt.Util.Http.Client.Secure.{Connection, connect-Connection}
use btdt.Util.Http.Client.Sent.{Fresh}

-- A network where every host answers what a function says of the bytes that were sent.
abbrev pub net : (Bytes → Bytes) → Network
net peer = record {
  Tcp = Unit;
  ServerName = Bytes;
  ClientConnection = Bytes;
  Stream = Bytes;
  tcp_connect = λ host port. ok tt;
  server_name = λ host. ok host;
  client_connection = λ name. ok name;
  buffered = λ tcp. [];
  buffered_tls = λ connection tcp. [];
  write_all = λ p s. (s ++ p, ok tt);
  write = λ p s. (s ++ p, ok (length p));
  flush = λ s. (s, ok tt);
  into_source = λ s. ok (record { segments = peer s ∷ []; failure = none });
}

abbrev pub net_sends : (peer : Bytes → Bytes) → Sends (net peer)
net_sends peer = record { sent = λ s. s; write_all-sent = λ p s h. refl }

abbrev pub net_fresh : (peer : Bytes → Bytes) → Fresh (net peer) (net_sends peer)
net_fresh peer = record { buffered-sent = λ tcp. refl; buffered_tls-sent = λ c tcp. refl }

-- A URL is its path and its query.
abbrev pub urls : Urls
urls = record {
  Url = List Bytes;
  scheme = λ u. "https";
  username = λ u. [];
  password = λ u. none;
  host_str = λ u. some (codes "host");
  port_or_known_default = λ u. some 443;
  path = λ u. codes "/c";
  query = λ u. some (concat u);
  path_segments = λ u. some (codes "c" ∷ []);
  append_pair = λ k v u. u ++ (k ∷ codes "=" ∷ v ∷ []);
  as_str = λ u. concat u;
}

abbrev no_content : Bytes → Bytes
no_content s = codes "HTTP/1.1 204 No Content" ++ (crlf ++ crlf)

-- A stream that comes in two segments.
abbrev stream : Bytes → Bytes → Source
stream a b = record { segments = a ∷ b ∷ []; failure = none }

abbrev body_of : Source → Message.TransferEncodingType → ℕ → Body
body_of s t n = record {
  reader = s;
  transfer_encoding = some t;
  headers_exhausted = true;
  is_eof = false;
  chunk_bytes_remaining = n;
}

abbrev chunks : Body
chunks =
    body_of
      (stream (codes "2" ++ (crlf ++ codes "h"))
        (codes "e" ++ (crlf ++ (codes "0" ++ (crlf ++ crlf)))))
      chunked 0

chunks-Pending : Pending chunks [] (codes "he" ∷ []) []
unfolding format_hex upper_hex digit
chunks-Pending = record {
  encoding = refl;
  more = refl;
  calm = refl;
  remaining = refl;
  stream = refl;
}

read_all-Pending_example : read_all (1 ∷ 5 ∷ 5 ∷ []) chunks ≡ ok (codes "he")
read_all-Pending_example =
    read_all-Pending (1 ∷ 5 ∷ 5 ∷ []) chunks [] (codes "he" ∷ []) []
      (omega arith, (omega arith, (omega arith, tt))) (omega arith, tt) chunks-Pending (omega arith)

read_all-Sized_example :
    read_all (5 ∷ 5 ∷ 5 ∷ []) (body_of (stream (codes "he") (codes "llo")) (fixed_size 3) 3)
    ≡ ok (codes "hel")
read_all-Sized_example =
    read_all-Sized (5 ∷ 5 ∷ 5 ∷ []) (body_of (stream (codes "he") (codes "llo")) (fixed_size 3) 3) 3
      (omega arith, (omega arith, (omega arith, tt)))
      (record { size = 3; encoding = refl; calm = refl; remaining = refl; open_ = refl })
      (omega arith)

read_all-Truncated_example :
    read_all (5 ∷ 5 ∷ 5 ∷ []) (body_of (stream (codes "h") (codes "e")) chunked 9) ≡ ok (codes "he")
read_all-Truncated_example =
    read_all-Truncated (5 ∷ 5 ∷ 5 ∷ []) (body_of (stream (codes "h") (codes "e")) chunked 9)
      (omega arith, (omega arith, (omega arith, tt)))
      (record { encoding = refl; open_ = refl; calm = refl; short = omega arith }) (omega arith)

abbrev headers : MessageReader read_response_headers
headers = record {
  reader = stream (codes "A: b" ++ crlf) (crlf ++ codes "x");
  transfer_encoding = none;
  headers_exhausted = false;
  is_eof = false;
  chunk_bytes_remaining = 0;
}

skip_headers-Ended_example : Ended (skip_headers 10 headers)
skip_headers-Ended_example = skip_headers-Ended 10 headers (omega arith)

abbrev request : HttpRequest (net no_content) (awaiting_request_headers none)
request = record { stream = codes "PUT" }

abbrev reply : MessageReader read_response_status
reply = record {
  reader = record { segments = no_content [] ∷ []; failure = none };
  transfer_encoding = none;
  headers_exhausted = false;
  is_eof = false;
  chunk_bytes_remaining = 0;
}

sends_chunks :
    send_chunked (net no_content) (net_sends no_content) (codes "he" ∷ []) request ≡ ok reply
unfolding send_chunked body header write_pieces write_bufs write_chunk response into_reader
    Message.new
sends_chunks = refl

connects : connect urls (net no_content) [] ≡ ok []
unfolding connect use_tls secure same bytes_dec
connects = refl

connect-Connection_example : Connection urls (net no_content) [] []
connect-Connection_example = connect-Connection urls (net no_content) [] [] connects

-- A status line without a reason makes the client panic, also where a space stands for it, since the
-- end of the line is trimmed.
no_reason : Status.new (codes "HTTP/1.1 200") ≡ err panicked
unfolding Status.new starts_with byte_at Status.code Status.all_digits
no_reason = refl

-- A header whose value ends in a character of several bytes: the slice up to the byte after the first
-- one of that character panics.
accent : (Header.new (codes "k: " ++ (195 ∷ 169 ∷ crlf)) >>= λ h. Header.value h) ≡ err panicked
unfolding Header.new Header.value find_byte chars find_visible rfind_visible is_whitespace slice
    is_char_boundary is_continuation within
accent = refl
