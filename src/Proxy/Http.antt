-- ===== src/Proxy/Http.antt =====
-- internal/proxy/caddy.go: `BuildCaddyConfig`, the HTTP and HTTPS servers and the certificates, and
-- `BuildFullCaddyConfig`. The handlers and apps are kept as the values that `mustHTTPHandler` encodes, and an
-- endpoint stands for its text.
pub mod Certs
mod Tests
use localproxy.Base.{
  ℕ, Bytes, codes, List, [], ◌∷◌, ◌++◌, map, Option, none, some, Bool, not, ◌&&◌, if◌then◌else◌,
  bytes_beq, bytes_eq,
}
use localproxy.Base.GoMap.{GoMap, lookup, put}
use localproxy.Net.{AddrPort}
use localproxy.Proxy.Route.{Route}
use localproxy.Proxy.L4

-- The handler `reverse_proxy` with one upstream, and the `static_response` that redirects to HTTPS.
pub data Handler : Type 0 where
  reverse_proxy : AddrPort → Handler
  https_redirect : Handler

-- A route of a server: the names of its host matcher, if it has one, and its handler.
pub record HttpRoute : Type 0 where
  pub hosts : Option (List Bytes)
  pub handler : Handler

pub record CertInfo : Type 0 where
  pub tag : Bytes
  pub cert_path : Bytes
  pub key_path : Bytes
  pub sni_names : List Bytes

-- `caddytls.CertKeyFilePair`, with its one tag.
pub record KeyPair : Type 0 where
  pub certificate : Bytes
  pub key : Bytes
  pub tag : Bytes

-- `caddytls.ConnectionPolicy`: the names of its matcher and its certificate tag, or neither.
pub data Policy : Type 0 where
  by_sni : List Bytes → Bytes → Policy
  default : Policy

pub record Server : Type 0 where
  pub listen : List Bytes
  pub policies : List Policy
  pub routes : List HttpRoute

-- The two servers, and `load_files` of the TLS app.
pub record Config : Type 0 where
  pub https : Server
  pub http : Server
  pub load_files : List KeyPair

-- The names of a route, `hosts` and `sniNames` alike.
abbrev pub host_names : Route → List Bytes
host_names r =
    if bytes_beq r.subdomain []
    then codes "localhost" ∷ codes "internal" ∷ []
    else (r.subdomain ++ codes ".localhost") ∷ (r.subdomain ++ codes ".internal") ∷ []

abbrev pub http_route : Route → HttpRoute
http_route r = record { hosts = some (host_names r); handler = reverse_proxy r.endpoint }

abbrev pub info_tag : Route → Bytes
info_tag r = if bytes_beq r.subdomain [] then codes "localhost" else r.subdomain

abbrev pub has_cert : Route → Bool
has_cert r = not (bytes_beq r.cert_path []) && not (bytes_beq r.key_path [])

-- The entry of `certInfos` after a route with a certificate.
abbrev pub joined : Option CertInfo → Route → CertInfo
joined (some existing) r = record existing { sni_names = existing.sni_names ++ host_names r }
joined none r = record {
  tag = info_tag r;
  cert_path = r.cert_path;
  key_path = r.key_path;
  sni_names = host_names r;
}

-- The loop over the routes, on `certInfos`.
pub cert_infos : List Route → GoMap Bytes CertInfo → GoMap Bytes CertInfo
cert_infos [] infos = infos
cert_infos (r ∷ routes) infos =
    cert_infos routes
      (if has_cert r then put (info_tag r) (joined (lookup (info_tag r) infos) r) infos else infos)

abbrev pub key_pair : Bytes × CertInfo → KeyPair
key_pair e = record { certificate = e.1.cert_path; key = e.1.key_path; tag = e.1.tag }

abbrev pub policy : Bytes × CertInfo → Policy
policy e = by_sni e.1.sni_names e.1.tag

-- `BuildCaddyConfig`
unfoldable pub build_caddy_config : List Route → Bool → Config
unfolding cert_infos
build_caddy_config routes https_redirects =
    let infos = cert_infos routes [] in
    let proxied = map http_route routes in
    record {
      https = record {
        listen = codes "0.0.0.0:443" ∷ codes "[::]:443" ∷ [];
        policies = map policy infos ++ (default ∷ []);
        routes = proxied;
      };
      http = record {
        listen = codes "0.0.0.0:80" ∷ codes "[::]:80" ∷ [];
        policies = [];
        routes =
            if https_redirects
            then record { hosts = none; handler = https_redirect } ∷ []
            else proxied;
      };
      load_files = map key_pair infos;
    }

-- One of the two logs, which both write to the standard output.
pub record CustomLog : Type 0 where
  pub level : Bytes
  pub include : List Bytes
  pub exclude : List Bytes

-- The whole configuration; the apps are kept as values, `layer4` where there is one.
pub record FullConfig : Type 0 where
  pub logs : GoMap Bytes CustomLog
  pub admin_listen : Bytes
  pub apps : Config
  pub layer4 : Option (GoMap Bytes L4.Server)

-- `BuildFullCaddyConfig`, which fails only where an app has no JSON.
unfoldable pub build_full_caddy_config :
    List Route → Bytes → Bool → Bytes → Option (GoMap Bytes L4.Server) → FullConfig
build_full_caddy_config routes admin_socket https_redirects log_level layer4 = record {
  logs =
      (
        codes "default",
        record {
          level = log_level;
          include = [];
          exclude =
              codes "http.handlers.reverse_proxy" ∷ codes "admin" ∷ codes "http.auto_https" ∷ [];
        },
      )
      ∷ (
        codes "reverse_proxy",
        record {
          level = codes "error";
          include = codes "http.handlers.reverse_proxy" ∷ [];
          exclude = [];
        },
      )
      ∷ [];
  admin_listen = codes "unix/" ++ admin_socket;
  apps = build_caddy_config routes https_redirects;
  layer4 = layer4;
}
