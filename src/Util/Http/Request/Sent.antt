-- ===== src/Util/Http/Request/Sent.antt =====
-- What the requests of util/http/mod.rs send, over a network that keeps what was written.
use mathlib.Core.List.{append-nil, append_assoc}
use btdt.Prelude.{
  ℕ, ◌≡◌, inl, inr, refl, sym, ap, ◌∙◌, none, List, [], ◌∷◌, ◌++◌, Bytes, codes, concat,
}
use btdt.Io.{ok, err, ◌>>=◌, IoResult, bind-ok, map_err-ok, err-ok, Result-cases, ok-subst}
use btdt.Util.Http.Error.{HttpResult, failed, io_error}
use btdt.Util.Http.Text.{crlf}
use btdt.Util.Http.Source.{Source}
use btdt.Util.Http.Message.{
  MessageReader, awaiting_request_headers, awaiting_request_body, read_response_status,
  chunked_transfer_encoding,
}
use btdt.Util.Http.Body.Encoding.{chunk_pieces, end_pieces, encoded}
use btdt.Util.Http.Network.{Network}
use btdt.Util.Http.Request.{
  HttpRequest, write_pieces, header, body, write_chunk, response, from_io, into_reader,
}

-- A stream keeps what was written to it.
pub record Sends (N : Network) : Type 0 where
  pub sent : N.Stream → Bytes
  pub write_all-sent :
      (p : Bytes) (s : N.Stream)
      → (N.write_all p s).1 ≡ ok tt
      → sent (N.write_all p s).0 ≡ sent s ++ p

-- The line of a header.
abbrev pub header_line : Bytes → Bytes → Bytes
header_line key value = concat (key ∷ codes ": " ∷ value ∷ crlf ∷ [])

module _ (N : Network) (L : Sends N) where
  open N use {Stream}
  open L use {sent}

  pub write_pieces-sent :
      (ps : List Bytes) (s : Stream)
      → (write_pieces N ps s).1 ≡ ok tt
      → sent (write_pieces N ps s).0 ≡ sent s ++ concat ps
  unfolding write_pieces
  write_pieces-sent [] s h = sym (append-nil (sent s))
  write_pieces-sent (p ∷ ps) s h = elim (Result-cases (N.write_all p s).1) [
    | inl (u, e) ↦
        rw (write_pieces, e)
          (write_pieces-sent ps (N.write_all p s).0 (rw (write_pieces, e) at h)
            ∙ rw (L.write_all-sent p s e) (append_assoc (sent s) p (concat ps)))
    | inr (x, e) ↦ absurd (err-ok x tt (rw (write_pieces, e) at h))
  ]

  -- The writes of a body, up to the first that fails.
  unfoldable pub write_bufs :
      List Bytes
      → HttpRequest N (awaiting_request_body chunked_transfer_encoding)
      → HttpResult (HttpRequest N (awaiting_request_body chunked_transfer_encoding))
  unfolding write_chunk
  write_bufs [] req = ok req
  write_bufs (buf ∷ bufs) req =
      let (req', r) = write_chunk N buf req in
      elim (from_io r) [ err e ↦ err e | ok n ↦ write_bufs bufs req' ]

  -- A request with a chunked body, from its first header on to the response.
  unfoldable pub send_chunked :
      List Bytes
      → HttpRequest N (awaiting_request_headers none)
      → HttpResult (MessageReader read_response_status)
  unfolding body write_bufs response
  send_chunked bufs req = body N req >>= λ req'. write_bufs bufs req' >>= λ req''. response N req''

  pub header-sent :
      {T : _} (key value : Bytes) (req : HttpRequest N (awaiting_request_headers T))
      → (header N key value req).1 ≡ ok tt
      → sent (header N key value req).0.stream ≡ sent req.stream ++ header_line key value
  unfolding header
  header-sent key value req h =
      write_pieces-sent (key ∷ codes ": " ∷ value ∷ crlf ∷ []) req.stream (map_err-ok _ _ tt h)

  write_chunk-sent :
      (buf : Bytes) (req : HttpRequest N (awaiting_request_body chunked_transfer_encoding)) (n : ℕ)
      → (write_chunk N buf req).1 ≡ ok n
      → sent (write_chunk N buf req).0.stream ≡ sent req.stream ++ concat (chunk_pieces buf)
  unfolding write_chunk
  write_chunk-sent buf req n h =
      write_pieces-sent (chunk_pieces buf) req.stream
        (bind-ok (write_pieces N (chunk_pieces buf) req.stream).1 _ n h).1

  ok-stream :
      (req req' : HttpRequest N (awaiting_request_body chunked_transfer_encoding))
      → ◌≡◌ {A = HttpResult (HttpRequest N (awaiting_request_body chunked_transfer_encoding))}
          (ok req)
          (ok req')
      → req'.stream ≡ req.stream
  ok-stream req req' h = ok-subst (λ r. r.stream ≡ req.stream) h refl

  pub write_bufs-sent :
      (bufs : List Bytes)
      (req req' : HttpRequest N (awaiting_request_body chunked_transfer_encoding))
      → write_bufs bufs req ≡ ok req'
      → sent req'.stream ++ concat end_pieces ≡ sent req.stream ++ encoded bufs []
  unfolding write_bufs
  write_bufs-sent [] req req' h = ap (λ r. sent r ++ concat end_pieces) (ok-stream req req' h)
  write_bufs-sent (buf ∷ bufs) req req' h = elim (Result-cases (write_chunk N buf req).1) [
    | inl (n, e) ↦
        write_bufs-sent bufs (write_chunk N buf req).0 req' (rw (write_bufs, e) at h)
        ∙ rw (write_chunk-sent buf req n e)
            (append_assoc (sent req.stream) (concat (chunk_pieces buf)) (encoded bufs []))
    | inr (x, e) ↦ absurd (err-ok (failed (io_error x)) req' (rw (write_bufs, e) at h))
  ]

  pub response-sent :
      (req : HttpRequest N (awaiting_request_body chunked_transfer_encoding))
      (m : MessageReader read_response_status)
      → response N req ≡ ok m
      → (s : Stream) × (N.into_source s ≡ ok m.reader)
        × (sent s ≡ sent req.stream ++ concat end_pieces)
  unfolding response into_reader
  response-sent req m h =
      let (u, a, b) = bind-ok _ _ m h in
      let (source, c, d) = bind-ok _ _ m (map_err-ok _ _ m b) in
      (
        (write_pieces N end_pieces req.stream).0,
        c
            ∙ ok-subst
                (λ (x : MessageReader read_response_status).
                  ◌≡◌ {A = IoResult Source} (ok source) (ok x.reader))
                d refl,
        write_pieces-sent end_pieces req.stream (map_err-ok _ _ tt a),
      )

  pub body-sent :
      (req : HttpRequest N (awaiting_request_headers none))
      (req' : HttpRequest N (awaiting_request_body chunked_transfer_encoding))
      → body N req ≡ ok req'
      → sent req'.stream
        ≡ sent req.stream ++ (header_line (codes "Transfer-Encoding") (codes "chunked") ++ crlf)
  unfolding body
  body-sent req req' h =
      let (u, a, b) =
        bind-ok (header N (codes "Transfer-Encoding") (codes "chunked") req).1 _ req' h in
      let (u', c, d) = bind-ok _ _ req' b in
      let req1 = (header N (codes "Transfer-Encoding") (codes "chunked") req).0 in
      ap sent (ok-stream _ req' d)
      ∙ write_pieces-sent (crlf ∷ []) req1.stream (map_err-ok _ _ tt c)
      ∙ ap (λ x. x ++ crlf) (header-sent (codes "Transfer-Encoding") (codes "chunked") req a)
      ∙ append_assoc (sent req.stream) (header_line (codes "Transfer-Encoding") (codes "chunked"))
          crlf

  -- Where a request with a chunked body gets a response, the peer's answer is to a stream that holds
  -- what was sent before, the header of the encoding, and then the encoding of the buffers, and nothing
  -- else.
  pub send_chunked-sent :
      (bufs : List Bytes) (req : HttpRequest N (awaiting_request_headers none))
      (m : MessageReader read_response_status)
      → send_chunked bufs req ≡ ok m
      → (s : Stream) × (N.into_source s ≡ ok m.reader)
        × (sent s
            ≡ sent req.stream
              ++ ((header_line (codes "Transfer-Encoding") (codes "chunked") ++ crlf)
                  ++ encoded bufs []))
  unfolding send_chunked
  send_chunked-sent bufs req m h =
      let (req1, a, b) = bind-ok (body N req) _ m h in
      let (req2, c, d) = bind-ok (write_bufs bufs req1) _ m b in
      let (s, e, f) = response-sent req2 m d in
      (
        s,
        e,
        f
            ∙ write_bufs-sent bufs req1 req2 c
            ∙ ap (λ x. x ++ encoded bufs []) (body-sent req req1 a)
            ∙ append_assoc (sent req.stream)
                (header_line (codes "Transfer-Encoding") (codes "chunked") ++ crlf)
                (encoded bufs []),
      )
