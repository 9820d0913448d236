-- ===== src/Daemon/Events/Tests.antt =====
-- The events of the daemon on small inputs, and the theorem at a concrete input.
use localproxy.Base.{
  ℕ, itoa, ◌≡◌, refl, pos, Bytes, codes, [], ◌∷◌, Option, none, some, true, false, bytes_eq, arith,
}
use localproxy.Base.GoMap.{lookup}
use localproxy.Net.{loopback}
use localproxy.Discovery.Types.{
  from_process, from_docker, RouteSource, ProcessInfo, DiscoveredService, Heap,
}
use localproxy.Registry.Routes.{
  RouteRegistry, new_route_registry, resolve_subdomain, update_services, is_folder_group,
  needs_mapping, rebuild_folder_groups, group_all, add_to_group, default_subdomain,
}
use localproxy.Registry.Routes.Update.{IsValid, resolve_all, regrouped}
use localproxy.Daemon.Events.{scan_processes, on_processes_changed}
use localproxy.Daemon.Events.Scan.{scan_processes_lem}

abbrev process : ProcessInfo
process = record {
  pid = 7;
  cwd = codes "/p/shop";
  disabled = false;
  needs_custom_mapping = false;
  is_well_known = false;
  top_level_folder = codes "shop";
  relative_path = [];
}

abbrev heap : Heap
heap = record {
  process_at = λ a. process;
  docker_at = λ a. record { id = []; name = []; has_custom_name = true; ports = [] };
}

abbrev service : Option ℕ → Bytes → RouteSource → DiscoveredService
service object subdomain source = record {
  subdomain = subdomain;
  endpoint = record { ip = loopback; port = 3000 };
  tcp_port = pos 0;
  source = source;
  process = object;
  docker = none;
  folder = none;
  service = none;
}

abbrev web : DiscoveredService
web = service (some 0) (codes "shop") from_process

abbrev container : DiscoveredService
container = service none (codes "shop") from_docker

abbrev registry : RouteRegistry
registry = record new_route_registry { services = (codes "shop", container) ∷ [] }

registry-IsValid : IsValid registry
registry-IsValid = record { unique = (refl, tt); keyed = λ k s e. ground arith }

-- The name of a new service is notified once, at the first scan.
notifies :
    let (r, h, names, seen) = on_processes_changed none true heap (web ∷ []) registry [] in
    (names ≡ codes "shop" ∷ []) × ((on_processes_changed none true h (web ∷ []) r seen).2 ≡ [])
unfolding on_processes_changed update_services is_folder_group itoa
notifies = (refl, refl)

scan_processes_lem_example :
    lookup (codes "shop") (scan_processes none heap (web ∷ []) registry).0.services ≡ some web
unfolding resolve_all regrouped resolve_subdomain rebuild_folder_groups group_all add_to_group
    default_subdomain is_folder_group needs_mapping
scan_processes_lem_example =
    (scan_processes_lem registry none heap (web ∷ []) (codes "shop") web registry-IsValid).0 refl
