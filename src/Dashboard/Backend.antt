-- ===== src/Dashboard/Backend.antt =====
-- internal/dashboard/backend.go, and the port of the dashboard (server.go).
use localproxy.Base.{ℕ, Bytes, [], Bool, false, List}
use localproxy.Net.{AddrPort, loopback}
use localproxy.Discovery.Types.{RouteSource, DockerListener}
use localproxy.Proxy.Route.{Route}

pub record Backend : Type 0 where
  pub route : Route
  pub open route use *
  pub pid : ℕ
  pub cwd : Bytes
  pub disabled : Bool
  pub source : RouteSource
  pub docker_container_id : Bytes
  pub docker_has_auto_name : Bool
  pub docker_ports : List DockerListener
  pub needs_custom_mapping : Bool
  pub is_docker : Bool
  pub top_level_folder : Bytes
  pub relative_path : Bytes

-- `Backend{Route: …, Source: …}`, the other fields at their zero values
abbrev pub plain_backend : Route → RouteSource → Backend
plain_backend route source = record {
  route = route;
  pid = 0;
  cwd = [];
  disabled = false;
  source = source;
  docker_container_id = [];
  docker_has_auto_name = false;
  docker_ports = [];
  needs_custom_mapping = false;
  is_docker = false;
  top_level_folder = [];
  relative_path = [];
}

-- `dashboard.ServerPort` on the loopback address
abbrev pub dashboard_endpoint : AddrPort
dashboard_endpoint = record { ip = loopback; port = 13279 }
