-- ===== src/Daemon/Routes.antt =====
-- cmd/localproxyd/caddy_daemon.go: the part of `onRoutesChanged` that makes the certificates and the
-- configuration. `generation` says how generating a certificate under a key would end. `none` is a
-- panic.
pub mod Served
mod Tests
use localproxy.Base.{
  ℕ, Bytes, codes, List, [], ◌∷◌, ◌++◌, map, Option, none, some, Bool, true, false, ◌&&◌, ◌||◌, not,
  if◌then◌else◌, bytes_beq, bytes_eq,
}
use localproxy.Base.GoMap.{GoMap, lookup}
use localproxy.Dashboard.Backend.{Backend, dashboard_endpoint}
use localproxy.Proxy.Route.{Route, plain_route}
use localproxy.Proxy.L4.{Server, build_l4_app}
use localproxy.Proxy.Http.{FullConfig, build_full_caddy_config}
use localproxy.Certs.{
  CertManager, CertPaths, Disk, Generation, cache_key, ensure_cert_internal, get_cert,
}

-- The key that `onRoutesChanged` asks a certificate for, and whether it is a wildcard.
abbrev pub cert_key : Route → Bytes
cert_key r = if bytes_beq r.subdomain [] then codes "localhost" else r.subdomain

abbrev pub use_wildcard : Route → Bool
use_wildcard r = r.has_wildcard || not (bytes_beq r.folder_group [])

abbrev pub cert_name : Route → Bytes
cert_name r =
    if not (bytes_beq r.folder_group []) && not r.has_wildcard then r.folder_group else cert_key r

-- The two paths that are found under a key, empty if it is not there.
abbrev pub with_paths : Option CertPaths → Route → Route
with_paths none r = r
with_paths (some p) r = record r { cert_path = p.cert_path; key_path = p.key_path }

-- `proxy.Route{Subdomain: …, Endpoint: …, HasWildcard: …, FolderGroup: …}`
abbrev pub bare_route : Route → Route
bare_route r = record (plain_route r.subdomain r.endpoint) {
  has_wildcard = r.has_wildcard;
  folder_group = r.folder_group;
}

abbrev pub caddy_route : CertManager → Route → Route
caddy_route m r =
    with_paths (lookup (cache_key (cert_name r) (use_wildcard r)) m.certs) (bare_route r)

-- The loop over the routes: the routes for Caddy after the dashboard's, the manager and the files.
pub caddy_routes :
    (Bytes → Generation)
    → List Route
    → List Backend
    → CertManager
    → Disk
    → Option (List Route × CertManager × Disk)
caddy_routes generation [] backends m disk = some ([], m, disk)
caddy_routes generation (r ∷ routes) [] m disk = none
caddy_routes generation (r ∷ routes) (b ∷ backends) m disk =
    let key = cache_key (cert_name r) (use_wildcard r) in
    let (fine, m', disk') =
      ensure_cert_internal (generation key) (cert_name r) (use_wildcard r) m disk in
    elim b.disabled [
      | true ↦ caddy_routes generation routes backends m disk
      | false ↦ elim (caddy_routes generation routes backends m' disk') [
        | none ↦ none
        | some (rest, m'', disk'') ↦
            some (if fine then caddy_route m' r ∷ rest else rest, m'', disk'')
      ]
    ]

-- What `onRoutesChanged` gives to Caddy, as values in place of their JSON, `l4JSON` where there is one;
-- and the names for the hosts file, which is written once Caddy has taken the configuration.
pub record Reload : Type 0 where
  pub config : FullConfig
  pub subdomains : List Bytes

-- The route to the dashboard, with the certificate for "localhost".
abbrev pub dashboard_route : CertManager → Route
dashboard_route m = with_paths (get_cert (codes "localhost") m) (plain_route [] dashboard_endpoint)

-- From `GetCert("localhost")` on; the Booleans and texts are the constant `adminSocket` and the fields
-- `HTTPSRedirect` and `LogLevel` of the configuration.
pub load_routes :
    (Bytes → Generation)
    → Bytes
    → Bool
    → Bytes
    → List Route
    → List Backend
    → CertManager
    → Disk
    → Option (Reload × CertManager × Disk)
unfolding caddy_routes
load_routes generation admin_socket https_redirects log_level routes backends m disk =
    elim (caddy_routes generation routes backends m disk) [
      | none ↦ none
      | some (served, m', disk') ↦ elim (build_l4_app routes) [
        | none ↦ none
        | some layer4 ↦ some (
          record {
            config =
                build_full_caddy_config (dashboard_route m ∷ served) admin_socket https_redirects
                  log_level layer4;
            subdomains = map (λ r. r.subdomain) served;
          },
          m',
          disk',
        )
      ]
    ]
