-- ===== src/Proxy/Route.antt =====
-- internal/proxy/route.go
use localproxy.Base.{ℤ, pos, Bytes, [], Bool, false}
use localproxy.Net.{AddrPort}

pub record Route : Type 0 where
  pub subdomain : Bytes
  pub endpoint : AddrPort
  pub tcp_port : ℤ
  pub service_protocol : Bytes
  pub has_wildcard : Bool
  pub folder_group : Bytes
  pub cert_path : Bytes
  pub key_path : Bytes

-- `Route{Subdomain: …, Endpoint: …}`, the other fields at their zero values
abbrev pub plain_route : Bytes → AddrPort → Route
plain_route subdomain endpoint = record {
  subdomain = subdomain;
  endpoint = endpoint;
  tcp_port = pos 0;
  service_protocol = [];
  has_wildcard = false;
  folder_group = [];
  cert_path = [];
  key_path = [];
}
