-- ===== src/Discovery/Watcher/Tests.antt =====
-- The process watcher on small inputs, and the theorems at concrete inputs.
use localproxy.Base.{
  ℕ, ◌≡◌, refl, pos, codes, [], ◌∷◌, none, some, true, false, nat_eq, nat_beq, if◌then◌else◌, map,
}
use localproxy.Base.GoMap.{lookup}
use localproxy.Net.{AddrPort, loopback}
use localproxy.Discovery.Types.{from_process, ServiceInfo, DiscoveredService, Heap}
use localproxy.Discovery.Watcher.{
  ProcessMap, set_from, any_moved, is_services_changed, watch_round, start, by_endpoint, assign,
  any_info, on_probed,
}
use localproxy.Discovery.Watcher.Rounds.{last_of, watch_round_lem}
use localproxy.Discovery.Watcher.Probe.{last_at, any_found, on_probed_lem}

abbrev endpoint : ℕ → AddrPort
endpoint port = record { ip = loopback; port = port }

-- The process at address 9 has id 100, and every other address is that of process 101.
abbrev heap : Heap
heap = record {
  process_at = λ a. record {
    pid = if nat_beq a 9 then 100 else 101;
    cwd = codes "/p/shop";
    disabled = false;
    needs_custom_mapping = false;
    is_well_known = false;
    top_level_folder = codes "shop";
    relative_path = codes "shop";
  };
  docker_at = λ a. record { id = []; name = []; has_custom_name = true; ports = [] };
}

abbrev service : ℕ → ℕ → DiscoveredService
service a port = record {
  subdomain = [];
  endpoint = endpoint port;
  tcp_port = pos 0;
  source = from_process;
  process = some a;
  docker = none;
  folder = none;
  service = none;
}

abbrev http : ServiceInfo
http = record { endpoint = endpoint 3000; protocol = codes "http"; version = [] }

-- The first scan probes its services, and the probe marks the one that it finds.
start_and_probe :
    let round = start heap (service 1 3000 ∷ []) in
    (round.probed ≡ endpoint 3000 ∷ [])
    × ((on_probed (http ∷ []) round.current).1
        ≡ some (record (service 1 3000) { service = some http } ∷ []))
unfolding start set_from on_probed by_endpoint assign any_info
start_and_probe = (refl, refl)

-- A new process makes the watcher forget what the probe found, and does not probe for it again.
watch_round_lem_example :
    let known : ProcessMap = (101, record (service 1 3000) { service = some http }) ∷ [] in
    let round = watch_round heap (service 1 3000 ∷ service 9 3001 ∷ []) known in
    (lookup 101 round.current ≡ some (service 1 3000))
    × (round.probed ≡ endpoint 3001 ∷ [])
    × (round.changed ≡ some (service 1 3000 ∷ service 9 3001 ∷ []))
unfolding is_services_changed any_moved last_of
watch_round_lem_example =
    watch_round_lem heap (service 1 3000 ∷ service 9 3001 ∷ [])
      ((101, record (service 1 3000) { service = some http }) ∷ []) 101 (refl, (refl, tt)) refl

on_probed_lem_example :
    let (current, changed) = on_probed (http ∷ []) ((101, service 1 3000) ∷ []) in
    (lookup 101 current ≡ some (record (service 1 3000) { service = some http }))
    × (changed ≡ some (map (λ e. e.1) current))
unfolding last_at any_found
on_probed_lem_example = on_probed_lem (http ∷ []) ((101, service 1 3000) ∷ []) 101
