-- ===== src/Discovery/Watcher.antt =====
-- internal/discovery/process.go: the state of the process watcher, and what it does with a scan and
-- with the services that a probe has found. A service without a process is skipped, as in the source.
pub mod Changes
pub mod Rounds
pub mod Probe
mod Tests
use localproxy.Base.{
  ℕ, List, [], ◌∷◌, map, Option, none, some, Bool, true, false, not, ◌||◌, if◌then◌else◌, length,
  nat_beq, nat_eq, is_some,
}
use localproxy.Base.GoMap.{GoMap, lookup, put}
use localproxy.Net.{AddrPort, endpoint_eq}
use localproxy.Discovery.Types.{DiscoveredService, ServiceInfo, Heap}

-- `ProcessMap`
abbrev pub ProcessMap : Type 0
ProcessMap = GoMap ℕ DiscoveredService

-- `setProcesses`, from the map made so far.
pub set_from : Heap → List DiscoveredService → ProcessMap → ProcessMap
set_from h [] current = current
set_from h (s ∷ services) current =
    set_from h services
      (elim s.process [ none ↦ current | some a ↦ put (h.process_at a).pid s current ])

abbrev pub set_processes : Heap → List DiscoveredService → ProcessMap
set_processes h services = set_from h services []

-- The test in the loop of `isServicesChanged`.
abbrev pub is_moved : Heap → ProcessMap → DiscoveredService → Bool
is_moved h current s = elim s.process [
  | none ↦ false
  | some a ↦ elim (lookup (h.process_at a).pid current) [
    | none ↦ true
    | some existing ↦ not (nat_beq existing.endpoint.port s.endpoint.port)
  ]
]

pub any_moved : Heap → ProcessMap → List DiscoveredService → Bool
any_moved h current [] = false
any_moved h current (s ∷ services) = is_moved h current s || any_moved h current services

pub is_services_changed : Heap → ProcessMap → List DiscoveredService → Bool
unfolding any_moved
is_services_changed h current services =
    not (nat_beq (length services) (length current)) || any_moved h current services

pub get_new_targets : Heap → ProcessMap → List DiscoveredService → List AddrPort
get_new_targets h current [] = []
get_new_targets h current (s ∷ services) =
    let rest = get_new_targets h current services in
    elim s.process [
      | none ↦ rest
      | some a ↦ if is_some (lookup (h.process_at a).pid current) then rest else s.endpoint ∷ rest
    ]

-- What a round of `watchLoop` leaves and does: the map, the endpoints that are probed, and the services
-- that `onChange` is called with, if it is.
pub record Round : Type 0 where
  pub current : ProcessMap
  pub probed : List AddrPort
  pub changed : Option (List DiscoveredService)

-- A round of `watchLoop` with a scan that had no error.
pub watch_round : Heap → List DiscoveredService → ProcessMap → Round
unfolding is_services_changed get_new_targets
watch_round h services current =
    if is_services_changed h current services
    then record {
      current = set_processes h services;
      probed = get_new_targets h current services;
      changed = some services;
    }
    else record { current = current; probed = []; changed = none }

-- `Start`, with a scan that had no error.
unfoldable pub start : Heap → List DiscoveredService → Round
start h services = record {
  current = set_processes h services;
  probed = map (λ s. s.endpoint) services;
  changed = some services;
}

-- `serviceByKey`: the later of two services at one endpoint wins.
pub by_endpoint : List ServiceInfo → GoMap AddrPort ServiceInfo → GoMap AddrPort ServiceInfo
by_endpoint [] found = found
by_endpoint (info ∷ infos) found = by_endpoint infos (put info.endpoint info found)

abbrev pub with_info : GoMap AddrPort ServiceInfo → DiscoveredService → DiscoveredService
with_info found svc = elim (lookup svc.endpoint found) [
  | none ↦ svc
  | some info ↦ record svc { service = some info }
]

-- The loop of `discoverNewServices` over the map, and its flag `updated`.
pub assign : GoMap AddrPort ServiceInfo → ProcessMap → ProcessMap
assign found [] = []
assign found ((pid, svc) ∷ current) = (pid, with_info found svc) ∷ assign found current

pub any_info : GoMap AddrPort ServiceInfo → ProcessMap → Bool
any_info found [] = false
any_info found ((pid, svc) ∷ current) =
    is_some (lookup svc.endpoint found) || any_info found current

-- What the goroutine of `discoverNewServices` does when the probe has found these services: the map,
-- and the services that `onChange` is called with.
pub on_probed : List ServiceInfo → ProcessMap → ProcessMap × Option (List DiscoveredService)
unfolding by_endpoint assign any_info
on_probed infos current =
    let found = by_endpoint infos [] in
    let current' = assign found current in
    (current', if any_info found current then some (map (λ e. e.1) current') else none)
