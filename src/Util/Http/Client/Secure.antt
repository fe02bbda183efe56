-- ===== src/Util/Http/Client/Secure.antt =====
-- The connections that `HttpClient::connect` of util/http/mod.rs makes.
use btdt.Prelude.{
  ℕ, ◌≡◌, inl, inr, refl, Bool, true, false, Bool-cases, Option, none, some, Bytes, codes, same,
  same_sound, ◌||◌, not, arith,
}
use btdt.Prelude.Utf8.{is_nil}
use btdt.Io.{ok, bind-ok, map_err-ok, err-ok, ok-subst}
use btdt.Util.Http.Error.{failed, invalid_scheme, missing_host, panicked}
use btdt.Util.Http.Network.{Urls, Network}
use btdt.Util.Http.Client.{connect, secure, use_tls, or_error, or_panic, is_some}

pub or_error-ok : {A : Type 0} (o : Option A) (e : _) (a : A) → or_error o e ≡ ok a → o ≡ some a
or_error-ok none e a h = absurd (err-ok (failed e) a h)
or_error-ok {A} (some b) e a h = ok-subst (λ x. ◌≡◌ {A = Option A} (some b) (some x)) h refl

or_panic-ok : {A : Type 0} (o : Option A) (a : A) → or_panic o ≡ ok a → o ≡ some a
or_panic-ok none a h = absurd (err-ok panicked a h)
or_panic-ok {A} (some b) a h = ok-subst (λ x. ◌≡◌ {A = Option A} (some b) (some x)) h refl

-- What `use_tls` says of a scheme that it accepts.
abbrev pub Scheme : Bool → Bytes → Type 0
Scheme true s = s ≡ codes "https"
Scheme false s = s ≡ codes "http"

use_tls-Scheme : (s : _) (tls : Bool) → use_tls s ≡ ok tls → Scheme tls (codes s)
unfolding use_tls
use_tls-Scheme s tls h = elim (Bool-cases (same (codes s) (codes "http"))) [
  | inl e ↦ ok-subst (λ t. Scheme t (codes s)) (rw e at h) (same_sound _ _ e)
  | inr e ↦ elim (Bool-cases (same (codes s) (codes "https"))) [
    | inl e' ↦ ok-subst (λ t. Scheme t (codes s)) (rw (e, e') at h) (same_sound _ _ e')
    | inr e' ↦ absurd (err-ok (failed (invalid_scheme s)) tls (rw (e, e') at h))
  ]
]

module _ (U : Urls) (N : Network) where
  open U use {Url}
  open N use {Stream, Tcp}

  -- How the stream stands on the connection.
  abbrev pub Over : Bool → Bytes → Tcp → Stream → Type 0
  Over false host tcp s = s ≡ N.buffered tcp
  Over true host tcp s =
      (name : N.ServerName) × (connection : N.ClientConnection) × (N.server_name host ≡ ok name)
      × (N.client_connection name ≡ ok connection)
      × (s ≡ N.buffered_tls connection tcp)

  -- A connection to the host of a URL without credentials, in plain text only for `http`.
  pub record Connection (url : Url) (s : Stream) : Type 0 where
    pub tls : Bool
    pub scheme : Scheme tls (codes (U.scheme url))
    pub no_username : is_nil (U.username url) ≡ true
    pub no_password : U.password url ≡ none
    pub host : Bytes
    pub host_str : U.host_str url ≡ some host
    pub port : ℕ
    pub port_or_known_default : U.port_or_known_default url ≡ some port
    pub tcp : Tcp
    pub tcp_connect : N.tcp_connect host port ≡ ok tcp
    pub over : Over tls host tcp s

  secure-Over :
      (tls : Bool) (host : Bytes) (tcp : Tcp) (s : Stream)
      → secure U N tls host tcp ≡ ok s
      → Over tls host tcp s
  unfolding secure
  secure-Over false host tcp s h = ok-subst (λ x. x ≡ N.buffered tcp) h refl
  secure-Over true host tcp s h =
      let (name, a, b) = bind-ok _ _ s h in
      let (connection, c, d) = bind-ok _ _ s b in
      (
        name,
        connection,
        map_err-ok _ _ name a,
        map_err-ok _ _ connection c,
        ok-subst (λ x. x ≡ N.buffered_tls connection tcp) d refl,
      )

  is_some-none : {A : Type 0} (o : Option A) → is_some o ≡ false → o ≡ none
  is_some-none none e = refl
  is_some-none (some a) e = absurd (ground (arith, e))

  -- Where `connect` gives a stream, the URL has the scheme `http` or `https` and no username or
  -- password, the stream stands on a connection to its host and port, and for `https` it is a TLS stream
  -- whose server name is that host.
  pub connect-Connection : (url : Url) (s : Stream) → connect U N url ≡ ok s → Connection url s
  unfolding connect
  connect-Connection url s h =
      let (tls, a, b) = bind-ok (use_tls (U.scheme url)) _ s h in
      elim (Bool-cases (not (is_nil (U.username url)) || is_some (U.password url))) [
        | inl e ↦ absurd (err-ok _ s (rw e at b))
        | inr e ↦
            let (host, c, d) = bind-ok (or_error (U.host_str url) missing_host) _ s (rw e at b) in
            let (port, f, g) = bind-ok _ _ s d in
            let (tcp, i, j) = bind-ok _ _ s g in
            record {
              tls = tls;
              scheme = use_tls-Scheme (U.scheme url) tls a;
              no_username = ground (arith, e);
              no_password = is_some-none (U.password url) (ground (arith, e));
              host = host;
              host_str = or_error-ok (U.host_str url) missing_host host c;
              port = port;
              port_or_known_default = or_panic-ok (U.port_or_known_default url) port f;
              tcp = tcp;
              tcp_connect = map_err-ok _ _ tcp i;
              over = secure-Over tls host tcp s j;
            }
      ]
