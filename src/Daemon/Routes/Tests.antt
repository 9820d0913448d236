-- ===== src/Daemon/Routes/Tests.antt =====
-- A change of the routes on a small state, and the theorem at a concrete input.
use localproxy.Base.{ℕ, ◌≡◌, refl, Bytes, codes, List, [], ◌∷◌, bytes_eq, some, true, arith}
use localproxy.Net.{loopback}
use localproxy.Discovery.Types.{from_process}
use localproxy.Proxy.Route.{Route, plain_route}
use localproxy.Proxy.Http.{reverse_proxy}
use localproxy.Dashboard.Backend.{Backend, plain_backend, dashboard_endpoint}
use localproxy.Certs.{CertManager, Disk, generated}
use localproxy.Certs.Ensure.{IsFiled}
use localproxy.Daemon.Routes.{Reload, load_routes}
use localproxy.Daemon.Routes.Served.{load_routes_lem}

abbrev route : Bytes → ℕ → Route
route name port = plain_route name (record { ip = loopback; port = port })

abbrev web : Route
web = route (codes "web") 3000

abbrev api : Route
api = route (codes "api") 4000

-- The second backend is disabled.
abbrev backends : List Backend
backends =
    plain_backend web from_process
    ∷ record (plain_backend api from_process) { disabled = true }
    ∷ []

abbrev manager : CertManager
manager = record { certs_dir = codes "/var/certs"; certs = [] }

manager-IsFiled : IsFiled manager []
manager-IsFiled key p e = cc

load_routes_lem_example :
    (reload : Reload) × (m' : CertManager) × (disk' : Disk) × (load_routes
        (λ key. generated)
        (codes "/run/admin.sock")
        true
        (codes "info")
        (web ∷ api ∷ [])
        backends
        manager
        []
      ≡ some (reload, m', disk'))
    × (reload.config.apps.https.routes
        ≡ record {
          hosts = some (codes "localhost" ∷ codes "internal" ∷ []);
          handler = reverse_proxy dashboard_endpoint;
        }
          ∷ record {
            hosts = some (codes "web.localhost" ∷ codes "web.internal" ∷ []);
            handler = reverse_proxy web.endpoint;
          }
          ∷ [])
    × (reload.subdomains ≡ codes "web" ∷ [])
    × IsFiled m' disk'
load_routes_lem_example =
    load_routes_lem (λ key. generated) (codes "/run/admin.sock") true (codes "info")
      (web ∷ api ∷ []) backends manager [] (λ key. refl) (omega arith) manager-IsFiled
