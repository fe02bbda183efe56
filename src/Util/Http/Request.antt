-- ===== src/Util/Http/Request.antt =====
-- util/http/mod.rs: `HttpRequest`, which sends the headers and the body of a request. A call by
-- `&mut self` returns the request that it leaves; one by `self` returns what it makes of it.
pub mod Sent
use btdt.Prelude.{ℕ, Option, none, some, List, [], ◌∷◌, Bytes, codes, length}
use btdt.Io.{Result, ok, err, ◌>>=◌, IoResult, map_err}
use btdt.Util.Http.Error.{io_error, HttpResult, failed}
use btdt.Util.Http.Source.{Source}
use btdt.Util.Http.Text.{crlf}
use btdt.Util.Http.Decimal.{format_decimal}
use btdt.Util.Http.Message
use btdt.Util.Http.Message.{
  MessageReader, State, awaiting_request_headers, awaiting_request_body, read_response_status,
  chunked_transfer_encoding, fixed_size_transfer_encoding,
}
use btdt.Util.Http.Body.Encoding.{chunk_pieces, end_pieces}
use btdt.Util.Http.Network.{Network}

-- `HttpClientError::from` of an I/O error
abbrev pub from_io : {A : Type 0} → IoResult A → HttpResult A
from_io r = map_err (λ e. failed (io_error e)) r

module _ (N : Network) where
  open N use {Stream}

  pub record HttpRequest (S : State) : Type 0 where
    pub stream : Stream

  -- Calls of `write_all`, one after the other, each with a `?`.
  unfoldable pub write_pieces : List Bytes → Stream → Stream × IoResult (Unit {0})
  write_pieces [] s = (s, ok tt)
  write_pieces (p ∷ ps) s =
      let (s', r) = N.write_all p s in elim r [ err e ↦ (s', err e) | ok u ↦ write_pieces ps s' ]

  -- `WriteThenRead::into_reader` of both streams
  unfoldable pub into_reader : Stream → IoResult (MessageReader read_response_status)
  unfolding Message.new
  into_reader s = N.into_source s >>= λ source. ok (Message.new source)

  unfoldable pub header :
      {T : _}
      → Bytes
      → Bytes
      → HttpRequest (awaiting_request_headers T)
      → HttpRequest (awaiting_request_headers T) × HttpResult (Unit {0})
  unfolding write_pieces
  header key value req =
      let (stream, r) = write_pieces (key ∷ codes ": " ∷ value ∷ crlf ∷ []) req.stream in
      (record { stream = stream }, from_io r)

  unfoldable pub no_body :
      {T : _}
      → HttpRequest (awaiting_request_headers T)
      → HttpResult (MessageReader read_response_status)
  unfolding write_pieces into_reader
  no_body req =
      let (stream, r) = write_pieces (crlf ∷ []) req.stream in
      from_io r >>= λ u. from_io (into_reader stream)

  -- The header of the body's encoding, and the end of the headers.
  abbrev end_headers :
      {S T : State} → HttpRequest S × HttpResult (Unit {0}) → HttpResult (HttpRequest T)
  end_headers (req, r) =
      let (stream, r') = write_pieces (crlf ∷ []) req.stream in
      r >>= λ u. from_io r' >>= λ u'. ok (record { stream = stream })

  unfoldable pub body_with_size :
      ℕ
      → HttpRequest (awaiting_request_headers none)
      → HttpResult (HttpRequest (awaiting_request_body fixed_size_transfer_encoding))
  unfolding header write_pieces format_decimal
  body_with_size size req = end_headers (header (codes "Content-Length") (format_decimal size) req)

  unfoldable pub body :
      HttpRequest (awaiting_request_headers none)
      → HttpResult (HttpRequest (awaiting_request_body chunked_transfer_encoding))
  unfolding header write_pieces
  body req = end_headers (header (codes "Transfer-Encoding") (codes "chunked") req)

  -- `Write` of a body of a fixed size
  unfoldable pub write_sized :
      Bytes
      → HttpRequest (awaiting_request_body fixed_size_transfer_encoding)
      → HttpRequest (awaiting_request_body fixed_size_transfer_encoding) × IoResult ℕ
  write_sized buf req = let (stream, r) = N.write buf req.stream in (record { stream = stream }, r)

  -- `Write` of a chunked body
  unfoldable pub write_chunk :
      Bytes
      → HttpRequest (awaiting_request_body chunked_transfer_encoding)
      → HttpRequest (awaiting_request_body chunked_transfer_encoding) × IoResult ℕ
  unfolding write_pieces
  write_chunk buf req =
      let (stream, r) = write_pieces (chunk_pieces buf) req.stream in
      (record { stream = stream }, r >>= λ u. ok (length buf))

  unfoldable pub flush :
      {T : _}
      → HttpRequest (awaiting_request_body T)
      → HttpRequest (awaiting_request_body T) × IoResult (Unit {0})
  flush req = let (stream, r) = N.flush req.stream in (record { stream = stream }, r)

  -- `response` of a body of a fixed size
  unfoldable pub response_sized :
      HttpRequest (awaiting_request_body fixed_size_transfer_encoding)
      → HttpResult (MessageReader read_response_status)
  unfolding into_reader
  response_sized req = from_io (into_reader req.stream)

  -- `response` of a chunked body
  unfoldable pub response :
      HttpRequest (awaiting_request_body chunked_transfer_encoding)
      → HttpResult (MessageReader read_response_status)
  unfolding write_pieces into_reader
  response req =
      let (stream, r) = write_pieces end_pieces req.stream in
      from_io r >>= λ u. from_io (into_reader stream)
