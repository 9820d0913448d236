-- ===== src/Dashboard/Overview/Tests.antt =====
-- The dashboard's page on small inputs, and the theorem at a concrete input.
use localproxy.Base.{
  ℕ, ◌≡◌, refl, Bytes, codes, List, [], ◌∷◌, some, true, map, bytes_beq, bytes_eq, itoa,
}
use localproxy.Base.GoMap.{GoMap}
use localproxy.Base.Sorting.{count}
use localproxy.Net.{AddrPort, loopback}
use localproxy.Discovery.Types.{from_process, from_docker, DockerListener}
use localproxy.Proxy.Route.{plain_route}
use localproxy.Dashboard.Backend.{Backend, plain_backend}
use localproxy.Dashboard.Http.{http_error, written}
use localproxy.Dashboard.LogBuffer.{new_log_buffer}
use localproxy.Dashboard.LogManager.{LogManager, World}
use localproxy.Dashboard.Overview.{
  by_subdomain, BackendWithLogs, trim_base_path, group_processes, group_from, count_dirs,
}
use localproxy.Dashboard.Overview.Page.{Page, selected_ports, ports_by_number, serve_dashboard}
use localproxy.Dashboard.Overview.Shown.{shown_on, serve_dashboard_lem}

abbrev at : ℕ → AddrPort
at port = record { ip = loopback; port = port }

abbrev process : Bytes → Bytes → Backend
process name cwd = record (plain_backend (plain_route name (at 3000)) from_process) {
  pid = 7;
  cwd = cwd;
}

abbrev listener : ℕ → Bytes → Bytes → DockerListener
listener port kind protocol = record {
  endpoint = at port;
  private_port = port;
  kind = kind;
  service_protocol = protocol;
}

abbrev database : Backend
database = record (plain_backend (plain_route (codes "db") (at 5432)) from_docker) {
  docker_ports =
      listener 5432 (codes "tcp") (codes "postgres")
      ∷ listener 53 (codes "tcp") []
      ∷ listener 53 (codes "udp") []
      ∷ [];
}

abbrev bare : Backend → BackendWithLogs
bare b = record { backend = b; recent_logs = []; display_path = [] }

abbrev bases : List Bytes
bases = codes "/home/me/code" ∷ []

trims : trim_base_path (codes "/home/me/code/shop/api") bases ≡ codes "shop/api"
unfolding trim_base_path
trims = refl

-- Two processes of one directory make a group, a third stays alone.
abbrev api : BackendWithLogs
api = bare (process (codes "api") (codes "/home/me/code/shop/api"))

abbrev blog : BackendWithLogs
blog = bare (process (codes "blog") (codes "/home/me/code/blog"))

abbrev web : BackendWithLogs
web = bare (process (codes "web") (codes "/home/me/code/shop/web"))

groups : group_processes bases (api ∷ blog ∷ web ∷ []) ≡ (
  record {
    cwd = codes "/home/me/code/shop/api";
    display_cwd = codes "shop";
    backends = api ∷ web ∷ [];
  }
      ∷ [],
  blog ∷ [],
)
unfolding group_processes group_from count_dirs trim_base_path
groups = refl

ports :
    map (λ r. r.text) (selected_ports (some (bare database))) ≡ codes "5432/tcp" ∷ codes "53" ∷ []
unfolding selected_ports ports_by_number itoa
ports = refl

abbrev world : World
world = record {
  logs = λ a. new_log_buffer 10;
  next_log = 0;
  next_context = 0;
  cancelled = [];
  started = [];
}

abbrev manager : LogManager
manager = record { buffers = []; tracers = []; has_docker_client = true; trace_process_logs = true }

abbrev backends : GoMap Bytes Backend
backends = (codes "db", database) ∷ (codes "api", api.backend) ∷ []

-- Of two backends of one subdomain the last one stays.
last_stays :
    by_subdomain (database ∷ process (codes "db") [] ∷ []) []
    ≡ (codes "db", process (codes "db") []) ∷ []
unfolding by_subdomain
last_stays = refl

elsewhere :
    (serve_dashboard bases [] backends (codes "/favicon.ico") [] manager world).0
    ≡ http_error 404 (codes "404 page not found")
unfolding serve_dashboard
elsewhere = refl

serve_dashboard_lem_example :
    (page : Page) × ((serve_dashboard bases [] backends (codes "/") (codes "db") manager world).0
      ≡ written page)
    × (shown_on (λ b. bytes_beq b.subdomain (codes "api")) page
        ≡ count (λ e. bytes_beq e.1.subdomain (codes "api")) backends)
serve_dashboard_lem_example =
    serve_dashboard_lem (λ b. bytes_beq b.subdomain (codes "api")) bases [] backends (codes "db")
      manager world
