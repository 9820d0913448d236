-- ===== src/Registry/Listing.antt =====
-- internal/registry/routes.go: the routes and backends that the registry hands out.
pub mod Alignment
pub mod FolderGroups
mod Tests
use localproxy.Base.{
  ℕ, Bytes, codes, List, [], ◌∷◌, ◌++◌, map, Option, none, some, Bool, true, false, not, ◌&&◌, leb,
  if◌then◌else◌, length, keep_if, bytes_beq,
}
use localproxy.Base.GoMap.{GoMap}
use localproxy.Discovery.Types.{
  from_process, from_well_known, DiscoveredService, ProcessInfo, DockerInfo, ServiceInfo, Heap,
}
use localproxy.Proxy.Route.{Route, plain_route}
use localproxy.Dashboard.Backend.{Backend, plain_backend, dashboard_endpoint}
use localproxy.Registry.Routes.{RouteRegistry, is_folder_group}

abbrev pub root_route : Route
root_route = plain_route [] dashboard_endpoint

abbrev pub folder_route : Bytes → Route
folder_route folder = record (plain_route folder dashboard_endpoint) {
  has_wildcard = true;
  folder_group = folder;
}

-- `route` and `backend` as they stand before the `svc.Process` test.
abbrev service_route : DiscoveredService → Route
service_route svc = record (plain_route svc.subdomain svc.endpoint) {
  tcp_port = svc.tcp_port;
  service_protocol = elim svc.service [ none ↦ [] | some info ↦ info.protocol ];
}

-- The block under `svc.Process != nil`, on both variables.
add_process : RouteRegistry → Heap → Option ℕ → Route × Backend → Route × Backend
add_process r h none (route, backend) = (route, backend)
add_process r h (some a) (route, backend) =
    let p = h.process_at a in
    let shown = record backend {
      pid = p.pid;
      cwd = p.cwd;
      disabled = p.disabled;
      needs_custom_mapping = p.needs_custom_mapping;
      top_level_folder = p.top_level_folder;
      relative_path = p.relative_path;
    } in
    if not (bytes_beq p.top_level_folder []) && is_folder_group r p.top_level_folder
    then (
      record route { folder_group = p.top_level_folder },
      record shown { route = record shown.route { folder_group = p.top_level_folder } },
    )
    else (route, shown)

-- The block under `svc.Docker != nil`.
add_docker : Heap → Option ℕ → Backend → Backend
add_docker h none backend = backend
add_docker h (some a) backend = record backend {
  is_docker = true;
  docker_container_id = (h.docker_at a).id;
  docker_has_auto_name = not (h.docker_at a).has_custom_name;
  docker_ports = (h.docker_at a).ports;
}

pub list_service : RouteRegistry → Heap → DiscoveredService → Route × Backend
unfolding add_process add_docker is_folder_group
list_service r h svc =
    let (route, backend) =
      add_process r h svc.process
        (service_route svc, plain_backend (service_route svc) svc.source) in
    (route, add_docker h svc.docker backend)

-- The folder groups with two services or more, in the order of the map.
pub group_names : RouteRegistry → GoMap Bytes (List DiscoveredService) → List Bytes
unfolding is_folder_group
group_names r [] = []
group_names r ((name, l) ∷ groups) =
    let rest = group_names r groups in if is_folder_group r name then name ∷ rest else rest

pub list_groups : List Bytes → List (Route × Backend)
list_groups [] = []
list_groups (name ∷ names) =
    (folder_route name, plain_backend (folder_route name) from_process) ∷ list_groups names

pub list_services : RouteRegistry → Heap → GoMap Bytes DiscoveredService → List (Route × Backend)
list_services r h [] = []
list_services r h ((key, svc) ∷ services) = list_service r h svc ∷ list_services r h services

-- Each round of the three parts of `getRoutesLocked` appends one route and one backend.
pub get_rows : RouteRegistry → Heap → List (Route × Backend)
unfolding list_service group_names list_groups list_services
get_rows r h =
    (root_route, plain_backend root_route from_well_known)
    ∷ (list_groups (group_names r r.folder_groups) ++ list_services r h r.services)

pub get_routes_locked : RouteRegistry → Heap → List Route × List Backend
unfolding get_rows
get_routes_locked r h = (map (λ e. e.0) (get_rows r h), map (λ e. e.1) (get_rows r h))

-- `GetFolderGroups`
pub get_folder_groups : RouteRegistry → GoMap Bytes (List DiscoveredService)
unfolding is_folder_group
get_folder_groups r = keep_if (λ e. is_folder_group r e.0) r.folder_groups
