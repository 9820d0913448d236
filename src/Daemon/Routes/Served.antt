-- ===== src/Daemon/Routes/Served.antt =====
-- Which routes `onRoutesChanged` serves.
use localproxy.Base.{
  ◌≤◌, ◌≡◌, refl, ap, ap₂, ◌∙◌, ◌++◌, bytes_beq, Bytes, codes, List, [], ◌∷◌, length, map, Option,
  some, Bool, true, if◌then◌else◌, bytes_beq_iff, bytes_eq, Bool-cases, Option-cases, inl, inr,
  arith,
}
use localproxy.Base.GoMap.{GoMap, lookup}
use localproxy.Net.{AddrPort}
use localproxy.Dashboard.Backend.{Backend, dashboard_endpoint}
use localproxy.Proxy.Route.{Route}
use localproxy.Proxy.L4.{Server, build_l4_app}
use localproxy.Proxy.L4.Servers.{build_l4_app_lem}
use localproxy.Proxy.Http.{
  HttpRoute, reverse_proxy, has_cert, http_route, build_caddy_config, build_full_caddy_config,
}
use localproxy.Certs.{
  CertManager, Disk, Generation, generated, cache_key, paths_of, ensure_cert_internal,
}
use localproxy.Certs.Ensure.{IsFiled, ensure_cert_internal_lem}
use localproxy.Daemon.Routes.{
  cert_name, use_wildcard, with_paths, bare_route, caddy_route, caddy_routes, Reload, load_routes,
  dashboard_route,
}

-- The routes whose backend is enabled, in order.
abbrev pub enabled : List Route → List Backend → List Route
enabled [] backends = []
enabled (r ∷ routes) [] = []
enabled (r ∷ routes) (b ∷ backends) =
    let rest = enabled routes backends in if b.disabled then rest else r ∷ rest

-- Each route has both paths of a certificate.
abbrev pub AreCertified : List Route → Type 0
AreCertified [] = Unit {0}
AreCertified (r ∷ routes) = (has_cert r ≡ true) × AreCertified routes

-- Name and endpoint of a route.
abbrev pub target : Route → Bytes × AddrPort
target r = (r.subdomain, r.endpoint)

-- The two paths of a key are not empty.
with_paths-has_cert :
    (dir key : Bytes) (r : Route) → has_cert (with_paths (some (paths_of dir key)) r) ≡ true
with_paths-has_cert [] key r = refl
with_paths-has_cert (c ∷ dir) key r = refl

-- When certificates can be generated, `ensure_cert_internal` returns no error.
ensure_cert_internal-fine :
    (name : Bytes) (wildcard : Bool) (m : CertManager) (disk : Disk)
    → (ensure_cert_internal generated name wildcard m disk).0 ≡ true
unfolding ensure_cert_internal
ensure_cert_internal-fine name wildcard m disk = ground arith

-- The route is then served with the paths of its key.
caddy_route-certified :
    (g : Generation) (r : Route) (m : CertManager) (disk : Disk)
    → IsFiled m disk
    → let (fine, m', disk') = ensure_cert_internal g (cert_name r) (use_wildcard r) m disk in
      fine ≡ true → (has_cert (caddy_route m' r) ≡ true) × (target (caddy_route m' r) ≡ target r)
caddy_route-certified g r m disk v fine =
    let key = cache_key (cert_name r) (use_wildcard r) in
    let m' = (ensure_cert_internal g (cert_name r) (use_wildcard r) m disk).1 in
    let found : lookup key m'.certs ≡ some (paths_of m.certs_dir key) = ground (
      arith,
      (ensure_cert_internal_lem g (cert_name r) (use_wildcard r) m disk v).1 key,
      bytes_beq_iff key key,
    ) in
    rw found (with_paths-has_cert m.certs_dir key (bare_route r), refl)

-- If there are at least as many backends as routes, and every certificate can be generated, there is no
-- panic; the routes for Caddy are those whose backend is enabled, in order, by name and endpoint, each
-- with both paths of a certificate; and the manager is still valid.
caddy_routes_lem :
    (generation : Bytes → Generation) (routes : List Route) (backends : List Backend)
    (m : CertManager) (disk : Disk)
    → ((key : Bytes) → generation key ≡ generated)
    → length routes ≤ length backends
    → IsFiled m disk
    → (served : List Route) × (m' : CertManager) × (disk' : Disk) × (caddy_routes generation routes
          backends m disk
        ≡ some (served, m', disk'))
      × (map target served ≡ map target (enabled routes backends))
      × AreCertified served
      × IsFiled m' disk'
unfolding caddy_routes
caddy_routes_lem generation [] backends m disk works enough v = ([], m, disk, refl, refl, tt, v)
caddy_routes_lem generation (r ∷ routes) [] m disk works enough v = absurd (omega arith)
caddy_routes_lem generation (r ∷ routes) (b ∷ backends) m disk works enough v =
    elim (Bool-cases b.disabled) [
      | inl off ↦
          let rest =
            caddy_routes_lem generation routes backends m disk works (omega (arith, enough)) v in
          rw off rest
      | inr on ↦
          let g = generation (cache_key (cert_name r) (use_wildcard r)) in
          let made = ensure_cert_internal g (cert_name r) (use_wildcard r) m disk in
          let fine : made.0 ≡ true =
            rw (works (cache_key (cert_name r) (use_wildcard r)))
              (ensure_cert_internal-fine (cert_name r) (use_wildcard r) m disk) in
          let own = caddy_route-certified g r m disk v fine in
          let rest =
            caddy_routes_lem generation routes backends made.1 made.2 works (omega (arith, enough))
              (ensure_cert_internal_lem g (cert_name r) (use_wildcard r) m disk v).0 in
          (
            caddy_route made.1 r ∷ rest.0,
            rest.1,
            rest.2,
            rw (on, rest.3, fine) refl,
            let same = own.1 in let others = rest.4 in rw on cc,
            (own.0, rest.5),
            rest.6,
          )
    ]

-- The hosts of a name, and the endpoint that their requests go to.
abbrev pub proxied : Bytes × AddrPort → HttpRoute
proxied t = record {
  hosts = some (
      if bytes_beq t.0 []
      then codes "localhost" ∷ codes "internal" ∷ []
      else (t.0 ++ codes ".localhost") ∷ (t.0 ++ codes ".internal") ∷ []);
  handler = reverse_proxy t.1;
}

http_route-target : (routes : List Route) → map http_route routes ≡ map proxied (map target routes)
http_route-target [] = refl
http_route-target (r ∷ routes) = ap (λ l. proxied (target r) ∷ l) (http_route-target routes)

abbrev pub name_of : Bytes × AddrPort → Bytes
name_of t = t.0

subdomain-target :
    (routes : List Route) → map (λ r. r.subdomain) routes ≡ map name_of (map target routes)
subdomain-target [] = refl
subdomain-target (r ∷ routes) = ap (λ l. r.subdomain ∷ l) (subdomain-target routes)

target-dashboard_route : (m : CertManager) → target (dashboard_route m) ≡ ([], dashboard_endpoint)
target-dashboard_route m = elim (Option-cases (lookup (codes "localhost") m.certs)) [
  | inl none_yet ↦ rw none_yet refl
  | inr (p, found) ↦ rw found refl
]

load_routes-some :
    (generation : Bytes → Generation) (admin_socket : Bytes) (https_redirects : Bool)
    (log_level : Bytes) (routes : List Route) (backends : List Backend) (m : CertManager)
    (disk : Disk) (served : List Route) (m' : CertManager) (disk' : Disk)
    (app : Option (GoMap Bytes Server))
    → caddy_routes generation routes backends m disk ≡ some (served, m', disk')
    → build_l4_app routes ≡ some app
    → load_routes generation admin_socket https_redirects log_level routes backends m disk
      ≡ some (
        record {
          config =
              build_full_caddy_config
                (dashboard_route m ∷ served)
                admin_socket
                https_redirects
                log_level
                app;
          subdomains = map (λ r. r.subdomain) served;
        },
        m',
        disk',
      )
unfolding load_routes
load_routes-some generation admin_socket https_redirects log_level routes backends m disk served m'
      disk' app e f =
    rw (load_routes, e, f) refl

-- With at least as many backends as routes, a valid certificate manager, and every certificate that is
-- asked for generated or there, a change of the routes makes a configuration: its HTTPS server has the hosts
-- localhost and internal with the dashboard as their endpoint, and then, in order, for each route whose
-- backend is enabled and for no other, the two hosts of its name with its endpoint; the names for the hosts
-- file are those of these routes; and the manager stays valid.
pub load_routes_lem :
    (generation : Bytes → Generation) (admin_socket : Bytes) (https_redirects : Bool)
    (log_level : Bytes) (routes : List Route) (backends : List Backend) (m : CertManager)
    (disk : Disk)
    → ((key : Bytes) → generation key ≡ generated)
    → length routes ≤ length backends
    → IsFiled m disk
    → (reload : Reload) × (m' : CertManager) × (disk' : Disk) × (load_routes generation admin_socket
          https_redirects log_level routes backends m disk
        ≡ some (reload, m', disk'))
      × (reload.config.apps.https.routes
          ≡ map proxied (([], dashboard_endpoint) ∷ map target (enabled routes backends)))
      × (reload.subdomains ≡ map name_of (map target (enabled routes backends)))
      × IsFiled m' disk'
unfolding load_routes build_full_caddy_config build_caddy_config
load_routes_lem generation admin_socket https_redirects log_level routes backends m disk works
      enough v =
    let loop = caddy_routes_lem generation routes backends m disk works enough v in
    let served = loop.0 in
    let app = build_l4_app_lem routes in
    (
      record {
        config =
            build_full_caddy_config (dashboard_route m ∷ served) admin_socket https_redirects
              log_level app.0;
        subdomains = map (λ r. r.subdomain) served;
      },
      loop.1,
      loop.2,
      load_routes-some generation admin_socket https_redirects log_level routes backends m disk
          served loop.1 loop.2 app.0 loop.3 app.1,
      ap₂ (λ t l. proxied t ∷ l) (target-dashboard_route m)
          (http_route-target served ∙ ap (map proxied) loop.4),
      subdomain-target served ∙ ap (map name_of) loop.4,
      loop.6,
    )
