-- ===== src/Util/Http/Network.antt =====
-- The packages that util/http/mod.rs stands on: the url crate, and the connections of std::net and
-- rustls.
use btdt.Prelude.{ℕ, Option, List, Bytes, String}
use btdt.Io.{Result, IoResult}
use btdt.Util.Http.Error.{HttpClientError}
use btdt.Util.Http.Source.{Source}

-- `url::Url` with the accessors that the crate calls
pub record Urls : Type 1 where
  pub Url : Type 0
  pub scheme : Url → String
  pub username : Url → Bytes
  pub password : Url → Option Bytes
  pub host_str : Url → Option Bytes
  pub port_or_known_default : Url → Option ℕ
  pub path : Url → Bytes
  pub query : Url → Option Bytes
  pub path_segments : Url → Option (List Bytes)
  pub append_pair : Bytes → Bytes → Url → Url
  pub as_str : Url → Bytes

-- `TcpStream::connect`, `ServerName::try_from`, `ClientConnection::new` and the buffered streams. A
-- stream is turned into what the peer answers by `into_inner`, which sends what is buffered.
pub record Network : Type 1 where
  pub Tcp : Type 0
  pub ServerName : Type 0
  pub ClientConnection : Type 0
  pub Stream : Type 0
  pub tcp_connect : Bytes → ℕ → IoResult Tcp
  pub server_name : Bytes → Result ServerName HttpClientError
  pub client_connection : ServerName → Result ClientConnection HttpClientError
  pub buffered : Tcp → Stream
  pub buffered_tls : ClientConnection → Tcp → Stream
  pub write_all : Bytes → Stream → Stream × IoResult (Unit {0})
  pub write : Bytes → Stream → Stream × IoResult ℕ
  pub flush : Stream → Stream × IoResult (Unit {0})
  pub into_source : Stream → IoResult Source
