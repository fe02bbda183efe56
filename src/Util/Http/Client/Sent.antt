-- ===== src/Util/Http/Client/Sent.antt =====
-- What `HttpClient::method` of util/http/mod.rs has sent when it returns the request.
use btdt.Prelude.{◌≡◌, Bool, true, false, refl, ap, ◌∙◌, some, none, [], ◌++◌, Bytes, codes, concat}
use btdt.Io.{ok, bind-ok, map_err-ok, ok-subst}
use btdt.Util.Http.Error.{HttpResult, missing_host}
use btdt.Util.Http.Message.{awaiting_request_headers}
use btdt.Util.Http.Network.{Urls, Network}
use btdt.Util.Http.Request.{HttpRequest, write_pieces, header, from_io}
use btdt.Util.Http.Request.Sent.{Sends, write_pieces-sent, header-sent, header_line}
use btdt.Util.Http.Client.{connect, method, request_line, user_agent, or_error, with_header}
use btdt.Util.Http.Client.Secure.{connect-Connection, Over, or_error-ok}

-- Nothing has been sent over a stream that was just made.
pub record Fresh (N : Network) (L : Sends N) : Type 0 where
  pub buffered-sent : (tcp : N.Tcp) → L.sent (N.buffered tcp) ≡ []
  pub buffered_tls-sent :
      (c : N.ClientConnection) (tcp : N.Tcp) → L.sent (N.buffered_tls c tcp) ≡ []

module _ (U : Urls) (N : Network) (L : Sends N) (F : Fresh N L) where
  open U use {Url}
  open N use {Stream}
  open L use {sent}

  -- The request line and the headers that every request starts with.
  abbrev pub head : Bytes → Url → Bytes → Bytes
  head name url host =
      ((concat (request_line U N name url) ++ header_line (codes "Host") host)
        ++ header_line (codes "Connection") (codes "close"))
      ++ header_line (codes "User-Agent") user_agent

  Over-sent :
      (tls : Bool) (host : Bytes) (tcp : N.Tcp) (s : Stream) → Over U N tls host tcp s → sent s ≡ []
  Over-sent false host tcp s p = rw p (F.buffered-sent tcp)
  Over-sent true host tcp s (name, c, a, b, p) = rw p (F.buffered_tls-sent c tcp)

  connect-sent : (url : Url) (s : Stream) → connect U N url ≡ ok s → sent s ≡ []
  connect-sent url s h =
      let c = connect-Connection U N url s h in Over-sent c.tls c.host c.tcp s c.over

  with_header-sent :
      {T A : _} (key value : Bytes) (req : HttpRequest N (awaiting_request_headers T))
      (next : HttpRequest N (awaiting_request_headers T) → HttpResult A) (a : A)
      → with_header U N key value req next ≡ ok a
      → (req' : HttpRequest N (awaiting_request_headers T)) × (next req' ≡ ok a)
        × (sent req'.stream ≡ sent req.stream ++ header_line key value)
  with_header-sent key value req next a h =
      let (u, b, c) = bind-ok (header N key value req).1 _ a h in
      ((header N key value req).0, c, header-sent N L key value req b)

  abbrev Next : Type 0
  Next =
      HttpRequest N (awaiting_request_headers none)
      → HttpResult (HttpRequest N (awaiting_request_headers none))

  -- A request that `method` returns has sent the request line and the three first headers, and nothing
  -- else.
  pub method-sent :
      (name : Bytes) (url : Url) (req : HttpRequest N (awaiting_request_headers none))
      → method U N name url ≡ ok req
      → (host : Bytes) × (U.host_str url ≡ some host) × (sent req.stream ≡ head name url host)
  unfolding method
  method-sent name url req h =
      let agent : Next = λ r. with_header U N (codes "User-Agent") user_agent r λ r'. ok r' in
      let closing : Next = λ r. with_header U N (codes "Connection") (codes "close") r agent in
      let (s, a, b) = bind-ok (connect U N url) _ req h in
      let (u, c, d) = bind-ok (from_io (write_pieces N (request_line U N name url) s).1) _ req b in
      let (host, e, f) = bind-ok (or_error (U.host_str url) missing_host) _ req d in
      let (req1, g, i) = with_header-sent {T = none} (codes "Host") host _ closing req f in
      let (req2, j, k) =
        with_header-sent {T = none} (codes "Connection") (codes "close") req1 agent req g in
      let (req3, l, m) =
        with_header-sent {T = none} (codes "User-Agent") user_agent req2 (λ r'. ok r') req j in
      (
        host,
        or_error-ok (U.host_str url) missing_host host e,
        ap sent (
              ok-subst
                (λ (r : HttpRequest N (awaiting_request_headers none)). r.stream ≡ req3.stream) l
                refl)
            ∙ m
            ∙ ap (λ x. x ++ header_line (codes "User-Agent") user_agent)
                (k
                  ∙ ap (λ x. x ++ header_line (codes "Connection") (codes "close"))
                      (i
                        ∙ ap (λ x. x ++ header_line (codes "Host") host)
                            (write_pieces-sent N L (request_line U N name url) s
                                (map_err-ok _ _ tt c)
                              ∙ ap (λ x. x ++ concat (request_line U N name url))
                                  (connect-sent url s a)))),
      )
