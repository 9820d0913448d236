-- ===== src/Discovery/Docker/Tests.antt =====
-- Containers on small inputs, and the theorems at concrete inputs.
use localproxy.Base.{
  ℕ, ◌+◌, ◌≡◌, refl, pos, negsuc, Bytes, codes, List, [], ◌∷◌, none, some, true, false, bytes_eq,
  get_elem?, map,
}
use localproxy.Base.Atoi.{atoi, max_int}
use localproxy.Net.{AddrPort, v4, loopback}
use localproxy.Discovery.Types.{DiscoveredService, DockerListener, ServiceInfo, Heap, Objects}
use localproxy.Discovery.Docker.{
  Address, no_address, v4_text, v6_text, PortSummary, Summary, Reason, invalid_endpoint,
  no_exposed_ports, container_service, parse_container,
}
use localproxy.Discovery.Docker.Listing.{
  list_containers, has_name, shown, service_shown, unrouted_shown, AreReachable,
  list_containers_lem,
}
use localproxy.Base.Sorting.{count}
use localproxy.Base.{Bool, ◌&&◌}
use localproxy.Discovery.Docker.Ports.{tcp_targets, on_service_discovered, discover_service_info}
use localproxy.Discovery.Docker.Ports.Marks.{last_protocol, on_service_discovered-marked}

-- Numbers with a sign, with none, out of range, and none at all.
reads_numbers :
    (atoi (codes "8080") ≡ pos 8080)
    × (atoi (codes "-3") ≡ negsuc 2)
    × (atoi (codes "99999999999999999999") ≡ pos max_int)
    × (atoi (codes "80a") ≡ pos 0)
unfolding atoi
reads_numbers = (refl, refl, refl, refl)

abbrev objects : Objects
objects = record {
  heap = record {
    process_at = λ a. record {
      pid = 0;
      cwd = [];
      disabled = false;
      needs_custom_mapping = false;
      is_well_known = false;
      top_level_folder = [];
      relative_path = [];
    };
    docker_at = λ a. record { id = []; name = []; has_custom_name = true; ports = [] };
  };
  next = 0;
}

abbrev port : ℕ → ℕ → PortSummary
port private public = record { private_port = private; public_port = public; kind = codes "tcp" }

abbrev container : List PortSummary → List Address → Summary
container ports networks = record {
  id = codes "c0ffee";
  names = codes "/shop_db" ∷ [];
  labels = [];
  networks = networks;
  ports = ports;
}

abbrev published : Summary
published = container (port 80 0 ∷ port 81 8081 ∷ []) (v4_text 2886729730 ∷ [])

abbrev on_v6 : Summary
on_v6 = container (port 80 0 ∷ []) (no_address ∷ v6_text 1 ∷ [])

-- The address that stands first is taken, and the container without a port is reported.
lists :
    let l = list_containers (published ∷ on_v6 ∷ container [] [] ∷ []) objects in
    (map {B = AddrPort} (λ s. s.endpoint) l.services ≡ record { ip = loopback; port = 8081 } ∷ [])
    × (map {B = Reason} (λ u. u.reason) l.unrouted
        ≡ invalid_endpoint (v6_text 1) (pos 80) ∷ no_exposed_ports ∷ [])
unfolding list_containers parse_container
lists = (refl, refl)

-- The service of the published container, and the objects with its Docker object.
abbrev made : DiscoveredService × Objects
made = container_service published (codes "shop_db") (record { ip = loopback; port = 8081 }) objects

list_containers_lem_example :
    let l = list_containers (published ∷ on_v6 ∷ container [] [] ∷ []) objects in
    ((p : Bytes × Bytes → Bool)
      → count (λ svc. p (service_shown l.objects.heap svc)) l.services
          + count (λ u. p (unrouted_shown u)) l.unrouted
        ≡ count (λ c. has_name c && p (shown c)) (published ∷ on_v6 ∷ container [] [] ∷ []))
    × AreReachable l.services
list_containers_lem_example = list_containers_lem (published ∷ on_v6 ∷ container [] [] ∷ []) objects

-- A container with the TCP ports 5432 and 80, and the UDP port 80.
abbrev listener : ℕ → Bytes → DockerListener
listener port kind = record {
  endpoint = record { ip = v4 2886729730; port = port };
  private_port = port;
  kind = kind;
  service_protocol = [];
}

abbrev shop : Heap
shop = record objects.heap {
  docker_at = λ a. record {
    id = codes "c0ffee";
    name = codes "shop_db";
    has_custom_name = false;
    ports =
        listener 5432 (codes "tcp") ∷ listener 80 (codes "udp") ∷ listener 80 (codes "tcp") ∷ [];
  };
}

abbrev answers : List ServiceInfo
answers =
    record {
      endpoint = record { ip = v4 2886729730; port = 5432 };
      protocol = codes "postgres";
      version = [];
    }
    ∷ record {
      endpoint = record { ip = v4 2886729730; port = 80 };
      protocol = codes "http";
      version = [];
    }
    ∷ []

-- The service is moved to the port that speaks HTTP, and the protocols are marked.
discovers :
    let r = discover_service_info (λ targets. answers) (record made.0 { docker = some 4 }) shop in
    (◌≡◌ {A = ℕ} (elim r.0 [ none ↦ 0 | some svc ↦ svc.endpoint.port ]) 80)
    × (map {B = Bytes} (λ dp. dp.service_protocol) (r.1.docker_at 4).ports
        ≡ codes "postgres" ∷ [] ∷ codes "http" ∷ [])
unfolding discover_service_info
discovers = (refl, refl)

on_service_discovered-marked_example :
    let m = (tcp_targets 0 (shop.docker_at 4).ports []).1 in
    let docker' = (on_service_discovered 4 m answers made.0 shop).1.docker_at 4 in
    (get_elem? docker'.ports 2
      ≡ some (record (listener 80 (codes "tcp")) { service_protocol = codes "http" }))
    × (docker'.id ≡ codes "c0ffee")
    × (docker'.name ≡ codes "shop_db")
    × (docker'.has_custom_name ≡ false)
unfolding last_protocol
on_service_discovered-marked_example = on_service_discovered-marked 4 answers made.0 shop 2
