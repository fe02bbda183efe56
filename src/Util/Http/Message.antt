-- ===== src/Util/Http/Message.antt =====
-- util/http/mod.rs: `HttpMessageReader`, which reads the status line, the headers and the body of a
-- response. `HttpResponse` passes its calls on to it. A call returns the reader that it leaves.
pub mod Progress
use btdt.Prelude.{
  ℕ, zero, suc, ◌+◌, ◌-◌, Bool, true, false, Option, none, some, List, [], ◌∷◌, Bytes, codes,
  length, ◌==◌, if◌then◌else◌, min,
}
use btdt.Prelude.Utf8.{trim, trim_end, is_nil}
use btdt.Io.{Result, ok, err, ◌>>=◌, IoResult, invalid_data as invalid_data_kind}
use btdt.Util.Http.Error.{
  HttpClientError, io_error, unsupported_feature, invalid_data, HttpResult, Stop, failed, panicked,
}
use btdt.Util.Http.Text.{eq_ignore_ascii_case}
use btdt.Util.Http.Source
use btdt.Util.Http.Source.{Source, rest}
use btdt.Util.Http.Hex.{from_str_radix_16, wrap}
use btdt.Util.Http.Decimal.{parse_decimal}
use btdt.Util.Http.Status
use btdt.Util.Http.Status.{HttpStatus}
use btdt.Util.Http.Header
use btdt.Util.Http.Header.{Header}

-- `TransferEncodingType`
pub data TransferEncodingType : Type 0 where
  chunked : TransferEncodingType
  fixed_size : ℕ → TransferEncodingType

-- The marker types of the transfer encodings and of the states.
pub data TransferEncoding : Type 0 where
  no_body_transfer_encoding chunked_transfer_encoding fixed_size_transfer_encoding :
      TransferEncoding

pub data State : Type 0 where
  awaiting_request_headers : Option TransferEncoding → State
  awaiting_request_body : TransferEncoding → State
  read_response_status read_response_headers read_response_body : State

pub record MessageReader (S : State) : Type 0 where
  pub reader : Source
  pub transfer_encoding : Option TransferEncodingType
  pub headers_exhausted : Bool
  pub is_eof : Bool
  pub chunk_bytes_remaining : ℕ

-- `HttpMessageReader::new`
unfoldable pub new : {S : State} → Source → MessageReader S
new reader = record {
  reader = reader;
  transfer_encoding = none;
  headers_exhausted = false;
  is_eof = false;
  chunk_bytes_remaining = 0;
}

-- The reader in its next state.
abbrev pub advance : {S T : State} → MessageReader S → Source → MessageReader T
advance m reader = record {
  reader = reader;
  transfer_encoding = m.transfer_encoding;
  headers_exhausted = m.headers_exhausted;
  is_eof = m.is_eof;
  chunk_bytes_remaining = m.chunk_bytes_remaining;
}

unfoldable pub read_status :
    MessageReader read_response_status
    → HttpResult (HttpStatus × MessageReader read_response_headers)
unfolding Status.new trim_end Source.read_line
read_status m =
    let (reader, r) = Source.read_line m.reader in
    elim r [
      | err e ↦ err (failed (io_error e))
      | ok line ↦ elim (Status.new (trim_end line)) [
        | err e ↦ err e
        | ok status ↦ ok (status, advance m reader)
      ]
    ]

-- A call on the reader of the headers.
abbrev pub Reading : Type 0 → Type 0
Reading A = MessageReader read_response_headers × HttpResult A

abbrev pub set_encoding :
    MessageReader read_response_headers → Header → TransferEncodingType → Reading (Option Header)
set_encoding m h t = (record m { transfer_encoding = some t }, ok (some h))

-- What a header says of the body.
unfoldable pub encoding_of :
    MessageReader read_response_headers → Header → Bytes → Reading (Option Header)
unfolding eq_ignore_ascii_case
encoding_of m h v =
    if eq_ignore_ascii_case v (codes "chunked")
    then set_encoding m h chunked
    else (m, err (failed (unsupported_feature "transfer encoding")))

unfoldable pub length_of :
    MessageReader read_response_headers → Header → Bytes → Reading (Option Header)
unfolding parse_decimal invalid_data
length_of m h v = elim (parse_decimal wrap v) [
  | none ↦ (m, err (failed (invalid_data "invalid Content-Length header value")))
  | some size ↦ set_encoding m h (fixed_size size)
]

unfoldable pub interpret : MessageReader read_response_headers → Header → Reading (Option Header)
unfolding eq_ignore_ascii_case encoding_of length_of Header.key Header.value
interpret m h =
    if eq_ignore_ascii_case (Header.key h) (codes "Transfer-Encoding")
    then elim (Header.value h) [ err e ↦ (m, err e) | ok v ↦ encoding_of m h v ]
    else if eq_ignore_ascii_case (Header.key h) (codes "Content-Length")
    then elim (Header.value h) [ err e ↦ (m, err e) | ok v ↦ length_of m h v ]
    else (m, ok (some h))

unfoldable pub header_of : MessageReader read_response_headers → Bytes → Reading (Option Header)
unfolding trim Header.new interpret
header_of m line =
    if is_nil (trim line)
    then (record m { headers_exhausted = true }, ok none)
    else elim (Header.new line) [ err e ↦ (m, err e) | ok h ↦ interpret m h ]

unfoldable pub read_next_header : MessageReader read_response_headers → Reading (Option Header)
unfolding header_of Source.read_line
read_next_header m =
    if m.headers_exhausted
    then (m, ok none)
    else (let (reader, r) = Source.read_line m.reader in
        elim r [
          | err e ↦ (record m { reader = reader }, err (failed (io_error e)))
          | ok line ↦ header_of (record m { reader = reader }) line
        ])

-- The `while` loop of `read_body`. A turn takes a byte off the stream or exhausts the headers.
unfoldable pub skip_headers : ℕ → MessageReader read_response_headers → Reading (Unit {0})
skip_headers zero m = (m, ok tt)
skip_headers (suc fuel) m = elim m.headers_exhausted [
  | true ↦ (m, ok tt)
  | false ↦
      let (m', r) = read_next_header m in
      elim r [ err e ↦ (m', err e) | ok h ↦ skip_headers fuel m' ]
]

abbrev pub remaining_of : Option TransferEncodingType → ℕ
remaining_of none = 0
remaining_of (some chunked) = 0
remaining_of (some (fixed_size size)) = size

unfoldable pub read_body :
    MessageReader read_response_headers → HttpResult (MessageReader read_response_body)
unfolding skip_headers
read_body m =
    let (m', r) = skip_headers (suc (length (rest m.reader))) m in
    elim r [
      | err e ↦ err e
      | ok u ↦ ok (record {
        reader = m'.reader;
        transfer_encoding = m'.transfer_encoding;
        headers_exhausted = true;
        is_eof = false;
        chunk_bytes_remaining = remaining_of m'.transfer_encoding;
      })
    ]
