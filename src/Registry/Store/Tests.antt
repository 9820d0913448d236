-- ===== src/Registry/Store/Tests.antt =====
-- Runs of the store, and a theorem, at a concrete bucket and a concrete encoding.
use localproxy.Registry.Store.ListBolt.{
  ListBucket, stored, list_bolt, mapping_json, project_json, empty_bucket, empty_db,
}
use localproxy.Base.{
  ◌≡◌, refl, pos, codes, [], ◌∷◌, none, some, true, false, bytes_eq, itoa, scan_d,
}
use localproxy.Net.{loopback}
use localproxy.Discovery.Types.{from_process, ProcessInfo, DiscoveredService, Heap}
use localproxy.Registry.Mapping.{SubdomainMapping, Project}
use localproxy.Registry.Store.{Db, ok}
use localproxy.Registry.Store.Projects.{remove_project}
use localproxy.Registry.Store.Ports.{used_ports, find_free, take_port, allocate_port}
use localproxy.Registry.Store.Mappings.{
  add_subdomain_mapping, add_subdomain_mapping_data, get_mapping_subdomains_by_cwd,
  parse_for_folder, by_cwd, get_mappings_for_folder, store_mappings,
}
use localproxy.Registry.Store.Mappings.Laws.{resolve-add_subdomain_mapping}
use localproxy.Registry.Routes.{new_route_registry, needs_mapping, resolve_subdomain}

-- The file after the first two allocations.
abbrev one_port : Db ListBucket
one_port = record empty_db { ports = stored empty_bucket (codes "10000") (codes "1") }

abbrev two_ports : Db ListBucket
two_ports = record empty_db { ports = stored one_port.ports (codes "10001") (codes "1") }

first_allocation : allocate_port list_bolt true empty_db ≡ (ok 10000, one_port)
unfolding allocate_port take_port find_free itoa used_ports
first_allocation = refl

second_allocation : allocate_port list_bolt true one_port ≡ (ok 10001, two_ports)
unfolding allocate_port take_port find_free itoa used_ports scan_d
second_allocation = refl

abbrev shop : Project
shop = record {
  name = codes "shop";
  subdomain = [];
  port = pos 10000;
  path = [];
  source = [];
  container = [];
}

abbrev with_shop : Db ListBucket
with_shop = record one_port {
  projects = stored empty_bucket (codes "shop") (project_json.marshal shop);
}

-- A project that is removed gives its port back.
removes :
    remove_project list_bolt project_json true true (codes "shop") with_shop
    ≡ record { result = ok tt; db = empty_db; notified = true }
unfolding remove_project itoa
removes = refl

abbrev api : SubdomainMapping
api = record { folder_group = codes "shop"; subdomain = codes "api"; cwd = codes "/p/api" }

abbrev deep_process : ProcessInfo
deep_process = record {
  pid = 8;
  cwd = codes "/p/api";
  disabled = true;
  needs_custom_mapping = true;
  is_well_known = false;
  top_level_folder = codes "shop";
  relative_path = codes "shop/api";
}

abbrev heap : Heap
heap = record {
  process_at = λ a. deep_process;
  docker_at = λ a. record { id = []; name = []; has_custom_name = true; ports = [] };
}

abbrev svc : DiscoveredService
svc = record {
  subdomain = [];
  endpoint = record { ip = loopback; port = 3000 };
  tcp_port = pos 0;
  source = from_process;
  process = some 0;
  docker = none;
  folder = none;
  service = none;
}

resolve-add_subdomain_mapping_example :
    let db = (add_subdomain_mapping list_bolt mapping_json true api empty_db).db in
    let (name, h') =
      resolve_subdomain new_route_registry (store_mappings list_bolt mapping_json db) heap svc in
    (name ≡ codes "api.shop") × ((h'.process_at 0).disabled ≡ false)
unfolding needs_mapping add_subdomain_mapping
resolve-add_subdomain_mapping_example =
    resolve-add_subdomain_mapping list_bolt mapping_json api empty_db new_route_registry heap svc 0
      refl refl refl refl refl

-- A mapping that was added shows under its directory.
shows_mapping :
    get_mapping_subdomains_by_cwd list_bolt mapping_json
      (codes "shop")
      (add_subdomain_mapping_data list_bolt mapping_json true
        (codes "shop")
        (codes "api")
        (codes "/p/api")
        empty_db).db
    ≡ ok ((codes "/p/api", codes "api") ∷ [])
unfolding get_mapping_subdomains_by_cwd get_mappings_for_folder parse_for_folder by_cwd
    add_subdomain_mapping_data add_subdomain_mapping
shows_mapping = refl
