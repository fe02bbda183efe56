-- ===== src/Cache/Remote/Session.antt =====
-- A `get` and a `set` of cache/remote.rs from the call to the last byte.
use mathlib.Core.List.{Memᴰ}
use btdt.Prelude.{
  ◌≢◌, arith, suc, ◌≡◌, inl, inr, ap, ◌∙◌, true, Bool-cases, Option, Option-cases, none, some, List,
  [], ◌∷◌, ◌++◌, Bytes, codes, length, same,
}
use btdt.Io.{ok, err, IoPathError, bind-ok, map_err-ok, map_err, err-ok, ok-subst, Result-cases}
use btdt.Cache.{CacheHit}
use btdt.Util.Http.Error.{Stop, failed as stopped, panicked as stuck}
use btdt.Util.Http.Text.{crlf}
use btdt.Util.Http.Source.{rest}
use btdt.Util.Http.Status
use btdt.Util.Http.Status.{HttpStatus}
use btdt.Util.Http.Message
use btdt.Util.Http.Message.{
  MessageReader, awaiting_request_headers, read_response_body, read_response_headers,
  read_response_status,
}
use btdt.Util.Http.Body.Encoding.{encoded}
use btdt.Util.Http.Network.{Urls, Network}
use btdt.Util.Http.Request
use btdt.Util.Http.Request.{HttpRequest}
use btdt.Util.Http.Request.Sent.{
  Sends, write_bufs, write_bufs-sent, body-sent, response-sent, header-sent, header_line,
}
use btdt.Util.Http.Client
use btdt.Util.Http.Client.Sent.{Fresh, head, method-sent}
use btdt.Cache.Remote.{
  RemoteResult, failed, RemoteCache, Tokens, RemoteWriter, get, set, close, hit_of, hit_from,
  out_of_turns, scan, check_status, authorization, add_auth_header, put_operation, with_keys,
  try_set, try_get, Hints, stop_at, stop_io,
}
use btdt.Cache.Remote.Loop.{FromKeys, scan-ends, scan-FromKeys}

-- The status says that the request has succeeded.
abbrev pub Success : HttpStatus → Type 0
Success status = Status.is_success status ≡ some true

check_status-Success :
    {E : Type 0} (status : HttpStatus) → check_status {E = E} status ≡ ok tt → Success status
unfolding check_status
check_status-Success status h = elim (Option-cases (Status.is_success status)) [
  | inl e ↦ absurd (err-ok _ tt (rw (check_status, e) at h))
  | inr (b, e) ↦ elim (Bool-cases b) [
    | inl t ↦ e ∙ ap some t
    | inr t ↦ elim (Option-cases (Status.code_u16 status)) [
      | inl e' ↦ absurd (err-ok _ tt (rw (check_status, e, t, e') at h))
      | inr (n, e') ↦ absurd (err-ok _ tt (rw (check_status, e, t, e') at h))
    ]
  ]
]

no_hints : Hints
no_hints = record { size_hint = none; hit_key = none }

module _ (U : Urls) (N : Network) (T : Tokens) where
  open U use {Url}

  abbrev Hit : Type 0
  Hit = CacheHit (MessageReader read_response_body)

  abbrev OfKeys : List Bytes → Option (CacheHit (MessageReader read_response_body)) → Type 0
  OfKeys keys none = Unit
  OfKeys keys (some hit) = Memᴰ hit.key keys

  hit_from-key :
      (url : Bytes) (keys : List Bytes) (hints : Hints) (m : MessageReader read_response_headers)
      (hit : Hit)
      → FromKeys keys hints
      → hit_from U N T url hints m ≡ ok (some hit)
      → Memᴰ hit.key keys
  unfolding hit_from
  hit_from-key url keys hints m hit f h =
      let (reader, c, d) = bind-ok (map_err (stop_at url) (Message.read_body m)) _ (some hit) h in
      elim (Option-cases hints.hit_key) [
        | inl e ↦ absurd (err-ok _ (some hit) (rw e at d))
        | inr (k, e) ↦ ok-subst (λ (x : Option Hit). OfKeys keys x) (rw e at d) (f k e)
      ]

  hit_of-key :
      (url : Bytes) (keys : List Bytes) (m : MessageReader read_response_headers) (hit : Hit)
      → hit_of U N T url keys m ≡ ok (some hit)
      → Memᴰ hit.key keys
  unfolding hit_of no_hints
  hit_of-key url keys m hit h =
      let turns = suc (suc (length (rest m.reader))) in
      let (o, a, b) =
        bind-ok (map_err (stop_at url) (scan turns keys no_hints m).1) _ (some hit) h in
      elim (Option-cases o) [
        | inl z ↦ absurd (err-ok _ (some hit) (rw z at b))
        | inr (hints, z) ↦
            let f =
              scan-FromKeys turns keys no_hints hints m (λ k e. absurd (cc e))
                (map_err-ok _ _ o a ∙ ap ok z) in
            hit_from-key url keys hints (scan turns keys no_hints m).0 hit f (rw z at b)
      ]

  stop_at-ends :
      (url : Bytes) (x : Stop)
      → ◌≡◌ {A = RemoteResult (Option Hit)} (err (stop_at url x)) (err out_of_turns)
      → ⊥
  stop_at-ends url (stopped e) h = cc h
  stop_at-ends url stuck h = cc h

  -- The loop over the headers of a hit ends within the turns that it is given.
  pub hit_of-ends :
      (url : Bytes) (keys : List Bytes) (m : MessageReader read_response_headers)
      → hit_of U N T url keys m ≢ err out_of_turns
  unfolding hit_of hit_from no_hints
  hit_of-ends url keys m h =
      let turns = suc (suc (length (rest m.reader))) in
      let m' = (scan turns keys no_hints m).0 in
      elim (Result-cases (scan turns keys no_hints m).1) [
        | inr (x, e) ↦ stop_at-ends url x (rw (hit_of, e) at h)
        | inl (o, e) ↦ elim (Option-cases o) [
          | inl z ↦ scan-ends turns keys no_hints m (omega arith) (e ∙ ap ok z)
          | inr (hints, z) ↦ elim (Result-cases (Message.read_body m')) [
            | inr (x, f) ↦ stop_at-ends url x (rw (hit_of, e, z, hit_from, f) at h)
            | inl (reader, f) ↦ elim (Option-cases hints.hit_key) [
              | inl k ↦ failed_ends (rw (hit_of, e, z, hit_from, f, k) at h)
              | inr (key, k) ↦ ok_ends (rw (hit_of, e, z, hit_from, f, k) at h)
            ]
          ]
        ]
      ]
    where
      failed_ends :
          {e : IoPathError}
          → ◌≡◌ {A = RemoteResult (Option Hit)} (err (failed e)) (err out_of_turns)
          → ⊥
      failed_ends h = cc h

      ok_ends : {o : Option Hit} → ◌≡◌ {A = RemoteResult (Option Hit)} (ok o) (err out_of_turns) → ⊥
      ok_ends h = cc h

  -- A hit of `get` is for one of the keys that were asked for.
  pub get-key :
      (c : RemoteCache U N T) (keys : List Bytes) (hit : Hit)
      → get U N T c keys ≡ ok (some hit)
      → Memᴰ hit.key keys
  unfolding get
  get-key c [] hit h = absurd (cc h)
  get-key c (key ∷ keys) hit h =
      let url = with_keys U N T (key ∷ keys) c.base_url in
      let (r, a, b) =
        bind-ok (map_err (stop_at (U.as_str url)) (try_get U N T c url)) _ (some hit) h in
      let (u, d, e) = bind-ok (check_status r.0) _ (some hit) b in
      elim (Bool-cases (same (Status.code r.0) (codes "204"))) [
        | inl z ↦ absurd (cc (rw z at e))
        | inr z ↦ hit_of-key (U.as_str url) (key ∷ keys) r.1 hit (rw z at e)
      ]

  module _ (L : Sends N) (F : Fresh N L) where
    open L use {sent}

    add_auth_header-sent :
        (c : RemoteCache U N T) (req : HttpRequest N (awaiting_request_headers none))
        → (add_auth_header U N T c put_operation req).1 ≡ ok tt
        → (value : Bytes) × (authorization U N T c put_operation ≡ ok value)
          × (sent (add_auth_header U N T c put_operation req).0.stream
              ≡ sent req.stream ++ header_line (codes "Authorization") value)
    unfolding add_auth_header
    add_auth_header-sent c req h = elim (Result-cases (authorization U N T c put_operation)) [
      | inr (e, z) ↦ absurd (err-ok e tt (rw (add_auth_header, z) at h))
      | inl (value, z) ↦ (
        value,
        z,
        rw (add_auth_header, z)
            (header-sent N L (codes "Authorization") value req (rw (add_auth_header, z) at h)),
      )
    ]

    -- What a `set` has sent when it is closed without an error: the request line and the headers with
    -- the token, and the body.
    pub record Uploaded (c : RemoteCache U N T) (keys bufs : List Bytes) : Type 0 where
      pub host : Bytes
      pub value : Bytes
      pub stream : N.Stream
      pub response : MessageReader read_response_status
      pub status : HttpStatus
      pub to_host : U.host_str (with_keys U N T keys c.base_url) ≡ some host
      pub authorized : authorization U N T c put_operation ≡ ok value
      pub content :
          sent stream
          ≡ ((head U N L F (codes "PUT") (with_keys U N T keys c.base_url) host
                ++ header_line (codes "Authorization") value)
              ++ (header_line (codes "Transfer-Encoding") (codes "chunked") ++ crlf))
            ++ encoded bufs []
      pub answered : N.into_source stream ≡ ok response.reader
      pub read_status : (m : _) × (Message.read_status response ≡ ok (status, m))
      pub success : Success status

    -- A `set`, the writes of the buffers and a `close` that all succeed have sent one PUT request to the
    -- host of the cache: the keys are in its URL, the token for a `put` in its header, and its body is
    -- the chunked encoding of the buffers, complete and with nothing after it; and the server has
    -- answered that request with a status of success.
    pub set-Uploaded :
        (c : RemoteCache U N T) (keys bufs : List Bytes) (w w' : RemoteWriter U N T)
        → set U N T c keys ≡ ok w
        → write_bufs N L bufs w ≡ ok w'
        → close U N T w' ≡ ok tt
        → Uploaded c keys bufs
    unfolding set try_set Client.put close
    set-Uploaded c keys bufs w w' h wr cl =
        let url = with_keys U N T keys c.base_url in
        let set_ok = map_err-ok (stop_at (U.as_str url)) (try_set U N T c url) w h in
        let (req, a, b) = bind-ok (Client.put U N url) _ w set_ok in
        let (host, d, e) = method-sent U N L F (codes "PUT") url req a in
        let (u, f, g) = bind-ok (add_auth_header U N T c put_operation req).1 _ w b in
        let (value, i, j) = add_auth_header-sent c req f in
        let (response, k, l) = bind-ok (map_err stop_io (Request.response N w')) _ tt cl in
        let (r, m, n) = bind-ok (map_err stop_io (Message.read_status response)) _ tt l in
        let (s, o, p) = response-sent N L w' response (map_err-ok _ _ response k) in
        record {
          host = host;
          value = value;
          stream = s;
          response = response;
          status = r.0;
          to_host = d;
          authorized = i;
          content =
              p
              ∙ write_bufs-sent N L bufs w w' wr
              ∙ ap (λ x. x ++ encoded bufs [])
                  (body-sent N L (add_auth_header U N T c put_operation req).0 w g
                    ∙ ap
                        (λ x.
                          x ++ (header_line (codes "Transfer-Encoding") (codes "chunked") ++ crlf))
                        (j ∙ ap (λ x. x ++ header_line (codes "Authorization") value) e));
          answered = o;
          read_status = (r.1, map_err-ok _ _ r m);
          success = check_status-Success r.0 n;
        }
