-- ===== src/Registry/Listing/Tests.antt =====
-- Runs of the listing on a small registry, and the theorem at a concrete input.
use localproxy.Base.{bytes_eq, ◌≡◌, refl, pos, Bytes, codes, [], ◌∷◌, map, none, some, true, false}
use localproxy.Net.{loopback}
use localproxy.Discovery.Types.{from_process, ProcessInfo, DiscoveredService, Heap}
use localproxy.Registry.Routes.{RouteRegistry, is_folder_group}
use localproxy.Registry.Listing.{get_routes_locked}
use localproxy.Registry.Listing.Alignment.{
  purpose, dashboard_purpose, service_purpose, get_routes_aligned,
}

abbrev process : ProcessInfo
process = record {
  pid = 7;
  cwd = codes "/p/shop";
  disabled = false;
  needs_custom_mapping = false;
  is_well_known = false;
  top_level_folder = codes "shop";
  relative_path = [];
}

abbrev heap : Heap
heap = record {
  process_at = λ a. process;
  docker_at = λ a. record { id = []; name = []; has_custom_name = true; ports = [] };
}

abbrev served : DiscoveredService
served = record {
  subdomain = codes "pid-7";
  endpoint = record { ip = loopback; port = 3000 };
  tcp_port = pos 0;
  source = from_process;
  process = some 0;
  docker = none;
  folder = none;
  service = none;
}

-- One service, and a folder that two processes share.
abbrev registry : RouteRegistry
registry = record {
  services = (codes "pid-7", served) ∷ [];
  folder_groups = (codes "shop", served ∷ served ∷ []) ∷ [];
}

-- The dashboard, the folder, and the service, which is marked with its folder.
three_routes :
    map {B = Bytes × Bytes}
      (λ route. (route.subdomain, route.folder_group))
      (get_routes_locked registry heap).0
    ≡ ([], []) ∷ (codes "shop", codes "shop") ∷ (codes "pid-7", codes "shop") ∷ []
unfolding get_routes_locked is_folder_group
three_routes = refl

get_routes_aligned_example :
    let (routes, backends) = get_routes_locked registry heap in
    (map (λ b. b.route) backends ≡ routes)
    × (map purpose routes
        ≡ dashboard_purpose [] false
          ∷ dashboard_purpose (codes "shop") true
          ∷ service_purpose (codes "pid-7", served)
          ∷ [])
get_routes_aligned_example = get_routes_aligned registry heap (refl, tt)
