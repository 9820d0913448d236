-- ===== src/Discovery/Process/Tests.antt =====
-- The classification of listeners on small inputs, and the theorem at a concrete input.
use localproxy.Base.{
  ℕ, ◌≡◌, ◌≤◌, refl, Bytes, codes, [], ◌∷◌, true, false, nat_beq, if◌then◌else◌, map,
}
use localproxy.Base.Paths.{elements, way, rel}
use localproxy.Net.{AddrPort, loopback}
use localproxy.Discovery.Types.{RouteSource, from_process, from_well_known, Objects}
use localproxy.Discovery.WellKnown.{well_known_ports}
use localproxy.Discovery.Process.{
  Listener, resolve_path_info, find_matching_base_path, classify_listener, scan_listeners, scan,
}
use localproxy.Discovery.Process.Scan.{times_found, times_taken, scan_once}

abbrev endpoint : ℕ → AddrPort
endpoint port = record { ip = loopback; port = port }

abbrev listens : ℕ → ℕ → Listener
listens pid port = record { endpoint = endpoint port; pid = pid }

abbrev objects : Objects
objects = record {
  heap = record {
    process_at = λ a. record {
      pid = 0;
      cwd = [];
      disabled = false;
      needs_custom_mapping = false;
      is_well_known = false;
      top_level_folder = [];
      relative_path = [];
    };
    docker_at = λ a. record { id = []; name = []; has_custom_name = true; ports = [] };
  };
  next = 0;
}

-- Process 7 runs below the watched directory, and process 8 elsewhere.
abbrev cwd_of : ℕ → Bytes
cwd_of pid = if nat_beq pid 7 then codes "/p/shop/apps/api" else codes "/opt"

-- Two ports of a project and a database: one process and one well-known service.
finds :
    map {B = RouteSource × ℕ}
      (λ s. (s.source, s.endpoint.port))
      (scan
        (codes "/p" ∷ [])
        cwd_of
        (listens 7 3000 ∷ listens 7 3001 ∷ listens 8 6379 ∷ listens 8 6379 ∷ listens 8 22 ∷ [])
        objects).0
    ≡ (from_process, 3000) ∷ (from_well_known, 6379) ∷ []
unfolding scan scan_listeners classify_listener find_matching_base_path resolve_path_info rel
    elements way well_known_ports
finds = refl

scan_once_example :
    let (services, o) =
      scan (codes "/p" ∷ []) cwd_of (listens 7 3000 ∷ listens 7 3001 ∷ []) objects in
    (times_found 7 o.heap services ≤ 1) × (times_taken 3001 services ≤ 1)
scan_once_example =
    scan_once (codes "/p" ∷ []) cwd_of (listens 7 3000 ∷ listens 7 3001 ∷ []) objects 7 3001
