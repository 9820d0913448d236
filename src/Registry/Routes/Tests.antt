-- ===== src/Registry/Routes/Tests.antt =====
-- Runs of the route registry on small inputs, and the theorems at concrete inputs.
use localproxy.Base.{
  ℕ, ◌≡◌, refl, pos, Bytes, codes, [], ◌∷◌, map, Option, none, some, Bool, true, false,
  if◌then◌else◌, nat_beq, bytes_eq, itoa, arith,
}
use localproxy.Base.GoMap.{lookup}
use localproxy.Net.{AddrPort, loopback}
use localproxy.Discovery.Types.{
  RouteSource, from_process, from_docker, ProcessInfo, DockerInfo, DiscoveredService, Heap,
}
use localproxy.Registry.Mapping.{SubdomainMapping}
use localproxy.Registry.Routes.{
  RouteRegistry, new_route_registry, Mappings, is_folder_group, group_of, rebuild_folder_groups,
  needs_mapping, resolve_subdomain, is_outranked, update_services, update_service,
}
use localproxy.Registry.Routes.Update.{IsValid, resolve_all, regrouped, update_services_lem}
use localproxy.Registry.Routes.Valid.{updates-IsValid}
use localproxy.Registry.Routes.Resolve.{resolve_subdomain_mapped, resolve_subdomain_forgets}
use localproxy.Registry.Routes.Groups.{rebuild_folder_groups_lem}

abbrev endpoint : ℕ → AddrPort
endpoint port = record { ip = loopback; port = port }

abbrev service : Option ℕ → ℕ → RouteSource → DiscoveredService
service process port source = record {
  subdomain = [];
  endpoint = endpoint port;
  tcp_port = pos 0;
  source = source;
  process = process;
  docker = none;
  folder = none;
  service = none;
}

abbrev web : DiscoveredService
web = service (some 0) 3000 from_process

abbrev api : DiscoveredService
api = service (some 1) 3001 from_process

abbrev container : DiscoveredService
container = record (service none 80 from_docker) { subdomain = codes "shop" }

abbrev process : ℕ → Bytes → Bool → ProcessInfo
process pid cwd deep = record {
  pid = pid;
  cwd = cwd;
  disabled = deep;
  needs_custom_mapping = deep;
  is_well_known = false;
  top_level_folder = codes "shop";
  relative_path = cwd;
}

abbrev no_docker : DockerInfo
no_docker = record { id = []; name = []; has_custom_name = true; ports = [] }

-- Two processes below the folder "shop", the second in a folder of its own.
abbrev heap : Heap
heap = record {
  process_at = λ a.
      if nat_beq a 0
      then process 7 (codes "/p/shop") false
      else process 8 (codes "/p/shop/api") true;
  docker_at = λ a. no_docker;
}

abbrev mapped : SubdomainMapping
mapped = record { folder_group = codes "shop"; subdomain = codes "api"; cwd = codes "/p/shop/api" }

abbrev mappings : Mappings
mappings = some (λ cwd. if bytes_eq.beq cwd (codes "/p/shop/api") then some mapped else none)

abbrev with_container : RouteRegistry
with_container = record new_route_registry { services = (codes "shop", container) ∷ [] }

with_container-IsValid : IsValid with_container
with_container-IsValid = record { unique = (refl, tt); keyed = λ k s e. ground arith }

abbrev grouped : RouteRegistry
grouped = record with_container { folder_groups = (codes "shop", web ∷ api ∷ []) ∷ [] }

-- One process outranks the container of the same name.
process_takes_name :
    map (λ e. e.0) (update_services with_container none heap from_process (web ∷ [])).0.services
    ≡ codes "shop" ∷ []
unfolding update_services is_folder_group
process_takes_name = refl

-- Two processes of one folder get names of their own, and the container keeps its name.
group_gets_ids :
    map
      (λ e. e.0)
      (update_services with_container mappings heap from_process (web ∷ api ∷ [])).0.services
    ≡ codes "shop" ∷ codes "pid-7" ∷ codes "api.shop" ∷ []
unfolding update_services is_folder_group itoa
group_gets_ids = refl

update_services_lem_example :
    lookup
      (codes "shop")
      (update_services with_container none heap from_process (web ∷ [])).0.services
    ≡ some (record web { subdomain = codes "shop" })
unfolding update_services regrouped resolve_all resolve_subdomain is_outranked rebuild_folder_groups
    is_folder_group
update_services_lem_example =
    (update_services_lem with_container none heap from_process (web ∷ []) with_container-IsValid
        (refl, tt)).0
      (codes "shop")

updates-IsValid_example :
    IsValid (update_services with_container none heap from_process (web ∷ [])).0
    × IsValid (update_service with_container web).0
updates-IsValid_example =
    updates-IsValid with_container none heap from_process (web ∷ []) web with_container-IsValid

resolve_subdomain_mapped_example :
    (resolve_subdomain grouped mappings heap api).0 ≡ codes "api.shop"
unfolding needs_mapping is_folder_group
resolve_subdomain_mapped_example =
    (resolve_subdomain_mapped grouped mappings heap api 1 refl refl).0

resolve_subdomain_forgets_example :
    let (first, h') = resolve_subdomain with_container mappings heap api in
    (first ≡ codes "api.shop")
    × ((resolve_subdomain with_container mappings h' api).0 ≡ codes "shop")
unfolding is_folder_group
resolve_subdomain_forgets_example =
    resolve_subdomain_forgets with_container mappings heap api 1 mapped refl refl refl refl refl

rebuild_folder_groups_lem_example :
    let r' = rebuild_folder_groups heap (web ∷ container ∷ api ∷ []) with_container in
    (group_of r'.folder_groups (codes "shop") ≡ web ∷ api ∷ [])
    × (is_folder_group r' (codes "shop") ≡ true)
    × (r'.services ≡ with_container.services)
rebuild_folder_groups_lem_example =
    rebuild_folder_groups_lem heap (web ∷ container ∷ api ∷ []) with_container (codes "shop")
