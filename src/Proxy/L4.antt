-- ===== src/Proxy/L4.antt =====
-- internal/proxy/caddy_l4.go: the layer-4 servers for the routes with a TCP port. The handlers are
-- kept as the values that `mustL4Handler` encodes, and an endpoint stands for its text. `none` is a
-- panic.
pub mod Grouping
pub mod Servers
pub mod Select
mod Tests
use localproxy.Base.{
  ℕ, zero, suc, ℤ, pos, negsuc, Bytes, codes, List, [], ◌∷◌, ◌++◌, map, Option, none, some,
  if◌then◌else◌, bytes_beq, bytes_eq, nat_eq, itoa,
}
use localproxy.Base.GoMap.{GoMap, lookup, put}
use localproxy.Net.{AddrPort}
use localproxy.Proxy.Route.{Route}

-- `l4tls.Handler` with one connection policy, its certificate tag and the injected ALPN names; and
-- `l4proxy.Handler` with one upstream.
pub data Handler : Type 0 where
  tls : Bytes → List Bytes → Handler
  proxy : AddrPort → Handler

-- `MatcherSetsRaw`: absent, `{"tls": {}}`, or `{"tls": {"sni": […]}}`.
pub data Matcher : Type 0 where
  all : Matcher
  any_tls : Matcher
  sni : List Bytes → Matcher

pub record L4Route : Type 0 where
  pub matcher : Matcher
  pub handlers : List Handler

pub record Server : Type 0 where
  pub listen : Bytes
  pub routes : List L4Route

abbrev pub l4_alpn : List Bytes
l4_alpn = codes "postgresql" ∷ []

-- `byPort[port]`
abbrev pub at_port : GoMap ℕ (List Route) → ℕ → List Route
at_port m port = elim (lookup port m) [ none ↦ [] | some l ↦ l ]

-- One round of the first loop. A port of 0 or less is skipped.
pub add_by_port : Route → GoMap ℕ (List Route) → GoMap ℕ (List Route)
add_by_port r m = elim r.tcp_port [
  | pos (suc n) ↦ put (suc n) (at_port m (suc n) ++ (r ∷ [])) m
  | _ ↦ m
]

pub group_by_port : List Route → GoMap ℕ (List Route) → GoMap ℕ (List Route)
unfolding add_by_port
group_by_port [] m = m
group_by_port (r ∷ rs) m = group_by_port rs (add_by_port r m)

abbrev pub cert_tag : Route → Bytes
cert_tag r = if bytes_beq r.subdomain [] then codes "localhost" else r.subdomain

abbrev pub sni_names : Route → List Bytes
sni_names r =
    (r.subdomain ++ codes ".localhost") ∷ (r.subdomain ++ codes ".internal") ∷ r.subdomain ∷ []

abbrev pub terminate : Route → List Handler
terminate r = tls (cert_tag r) l4_alpn ∷ proxy r.endpoint ∷ []

abbrev pub tls_route : Route → L4Route
tls_route r = record { matcher = sni (sni_names r); handlers = terminate r }

abbrev pub fallback_route : Route → L4Route
fallback_route first = record { matcher = any_tls; handlers = terminate first }

abbrev pub plaintext_route : Route → L4Route
plaintext_route first = record { matcher = all; handlers = proxy first.endpoint ∷ [] }

-- The routes of one port; `pr.routes[0]` panics on an empty slice.
pub port_routes : List Route → Option (List L4Route)
port_routes [] = none
port_routes (r ∷ rs) = some (map tls_route (r ∷ rs) ++ (fallback_route r ∷ plaintext_route r ∷ []))

abbrev pub server_key : ℕ → Bytes
server_key port = codes "tcp_" ++ itoa port

pub port_server : ℕ → List Route → Option Server
unfolding port_routes
port_server port rs = elim (port_routes rs) [
  | none ↦ none
  | some l ↦ some (record { listen = codes "0.0.0.0:" ++ itoa port; routes = l })
]

-- The second loop.
pub build_servers : GoMap ℕ (List Route) → GoMap Bytes Server → Option (GoMap Bytes Server)
unfolding port_server
build_servers [] servers = some servers
build_servers ((port, rs) ∷ m) servers = elim (port_server port rs) [
  | none ↦ none
  | some server ↦ build_servers m (put (server_key port) server servers)
]

-- `BuildL4App`; the inner `none` is the `nil` for no TCP route at all.
pub build_l4_app : List Route → Option (Option (GoMap Bytes Server))
unfolding build_servers group_by_port
build_l4_app routes = elim (group_by_port routes []) [
  | [] ↦ some none
  | e ∷ m ↦ elim (build_servers (e ∷ m) []) [ none ↦ none | some servers ↦ some (some servers) ]
]
