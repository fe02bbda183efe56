-- ===== src/Cache/Remote/Tests.antt =====
-- The theorems about remote.rs against a server that answers in one way.
use mathlib.Core.List.{Memᴰ}
use btdt.Prelude.{
  ◌≡◌, ◌≢◌, refl, ℕ, none, some, List, [], ◌∷◌, ◌++◌, Bytes, codes, same, bytes_dec, if◌then◌else◌,
  ◌==◌, true, false,
}
use btdt.Prelude.Utf8.{
  is_utf8, valid_from, expected, trim, trim_end, chars, skip_spaces, drop_spaces, is_whitespace,
  is_char_boundary,
}
use btdt.Io.{ok, err}
use btdt.Cache.{CacheHit}
use btdt.Util.Http.Text.{crlf, byte_at, starts_with, eq_ignore_ascii_case, find_byte, slice}
use btdt.Util.Http.Decimal.{parse_decimal, digits_from}
use btdt.Util.Http.Hex.{format_hex, upper_hex, digit}
use btdt.Util.Http.Source.{read_line, take_line, cut_line}
use btdt.Util.Http.Status
use btdt.Util.Http.Header
use btdt.Util.Http.Header.{find_visible, rfind_visible}
use btdt.Util.Http.Message
use btdt.Util.Http.Message.{MessageReader, fixed_size, read_response_body, read_response_headers}
use btdt.Util.Http.Request
use btdt.Util.Http.Client
use btdt.Util.Http.Tests.{net, net_sends, net_fresh, urls}
use btdt.Util.Http.Request.Sent.{write_bufs}
use btdt.Cache.Remote.{
  Tokens, RemoteCache, RemoteWriter, get, set, close, scan, try_get, try_set, add_auth_header,
  authorization, operation_name, check_status, hit_of, hit_from, out_of_turns, note_size, note_key,
  find_key,
}
use btdt.Cache.Remote.Session.{hit_of-ends, get-key, set-Uploaded, Uploaded}

abbrev pub tokens : Tokens
tokens = record {
  Token = Unit;
  Time = ℕ;
  now = 0;
  checked_add = λ t d. some d;
  bearer = λ operation cache_id t token. some operation;
}

abbrev is_get : Bytes → Bytes
is_get [] = []
is_get (c ∷ s) =
    if c == b'G'
    then codes "HTTP/1.1 200 OK"
      ++ (crlf
          ++ (codes "Btdt-Cache-Key: b"
              ++ (crlf ++ (codes "Content-Length: 2" ++ (crlf ++ (crlf ++ codes "hi"))))))
    else codes "HTTP/1.1 204 No Content" ++ (crlf ++ crlf)

abbrev cache : RemoteCache urls (net is_get) tokens
cache = record { base_url = []; cache_id = codes "c"; token = tt }

abbrev keys : List Bytes
keys = codes "a" ∷ codes "b" ∷ []

abbrev hit : CacheHit (MessageReader read_response_body)
hit = record {
  key = codes "b";
  size_hint = some 2;
  reader = record {
    reader = record { segments = codes "hi" ∷ []; failure = none };
    transfer_encoding = some (fixed_size 2);
    headers_exhausted = true;
    is_eof = false;
    chunk_bytes_remaining = 2;
  };
}

gets : get urls (net is_get) tokens cache keys ≡ ok (some hit)
unfolding get try_get Client.get Client.method Client.connect Client.use_tls Client.secure same
    bytes_dec Request.write_pieces Request.header add_auth_header authorization operation_name
    Request.no_body Request.into_reader Message.new Message.read_status read_line take_line cut_line
    is_utf8 valid_from expected trim_end chars drop_spaces is_whitespace Status.new starts_with
    byte_at Status.code Status.all_digits check_status Status.is_success Status.code_u16 hit_of
    hit_from scan Message.read_next_header Message.header_of trim skip_spaces Header.new find_byte
    find_visible rfind_visible Message.interpret Header.key Header.value eq_ignore_ascii_case slice
    is_char_boundary Message.encoding_of Message.length_of parse_decimal digits_from note_size
    note_key find_key Message.read_body Message.skip_headers
gets = refl

get-key_example : Memᴰ (codes "b") keys
get-key_example = get-key urls (net is_get) tokens cache keys hit gets

-- The reader of the headers after the status line.
abbrev headers : MessageReader read_response_headers
headers = record {
  reader = record { segments = (codes "Btdt-Cache-Key: b" ++ crlf) ∷ crlf ∷ []; failure = none };
  transfer_encoding = none;
  headers_exhausted = false;
  is_eof = false;
  chunk_bytes_remaining = 0;
}

hit_of-ends_example : hit_of urls (net is_get) tokens (codes "u") keys headers ≢ err out_of_turns
hit_of-ends_example = hit_of-ends urls (net is_get) tokens (codes "u") keys headers

abbrev first : Bytes
first =
    codes "PUT /c?key=akey=b HTTP/1.1"
    ++ (crlf
        ++ (codes "Host: host"
            ++ (crlf
                ++ (codes "Connection: close"
                    ++ (crlf
                        ++ (codes "User-Agent: btdt/0.4.4"
                            ++ (crlf
                                ++ (codes "Authorization: Bearer put"
                                    ++ (crlf
                                        ++ (codes "Transfer-Encoding: chunked"
                                            ++ (crlf ++ (crlf ++ []))))))))))))

abbrev writer : Bytes → RemoteWriter urls (net is_get) tokens
writer s = record { stream = s }

sets : set urls (net is_get) tokens cache keys ≡ ok (writer first)
unfolding set try_set Client.put Client.method Client.connect Client.use_tls Client.secure same
    bytes_dec Request.write_pieces Request.header add_auth_header authorization operation_name
    Request.body
sets = refl

abbrev last : Bytes
last = first ++ (codes "2" ++ (crlf ++ (codes "hi" ++ crlf)))

writes :
    write_bufs (net is_get) (net_sends is_get) (codes "hi" ∷ []) (writer first) ≡ ok (writer last)
unfolding write_bufs Request.write_chunk Request.write_pieces format_hex upper_hex digit
writes = refl

closes : close urls (net is_get) tokens (writer last) ≡ ok tt
unfolding close Request.response Request.write_pieces Request.into_reader Message.new
    Message.read_status read_line take_line cut_line is_utf8 valid_from expected trim_end chars
    drop_spaces is_whitespace Status.new starts_with byte_at Status.code Status.all_digits
    check_status Status.is_success
closes = refl

set-Uploaded_example :
    Uploaded urls
      (net is_get)
      tokens
      (net_sends is_get)
      (net_fresh is_get)
      cache
      keys
      (codes "hi" ∷ [])
set-Uploaded_example =
    set-Uploaded urls (net is_get) tokens (net_sends is_get) (net_fresh is_get) cache keys
      (codes "hi" ∷ []) (writer first) (writer last) sets writes closes
