-- ===== src/Daemon/Events.antt =====
-- cmd/localproxyd/caddy_daemon.go: what the daemon does when a watcher reports its services.
pub mod Scan
pub mod Notify
mod Tests
use localproxy.Base.{
  Bytes, List, [], ◌∷◌, ◌++◌, Option, none, some, Bool, true, false, not, ◌&&◌, if◌then◌else◌,
  bytes_eq, keep_if,
}
use localproxy.Base.GoMap.{GoMap, lookup, put}
use localproxy.Discovery.Types.{
  RouteSource, from_process, from_docker, from_well_known, source_beq, DiscoveredService, Heap,
}
use localproxy.Registry.Routes.{RouteRegistry, Mappings, update_services}

abbrev pub filter_by_source : List DiscoveredService → RouteSource → List DiscoveredService
filter_by_source services source = keep_if (λ s. source_beq s.source source) services

-- `seenBackends[name]`
abbrev pub is_seen : GoMap Bytes Bool → Bytes → Bool
is_seen seen name = elim (lookup name seen) [ none ↦ false | some b ↦ b ]

-- `s.Process == nil || !s.Process.Disabled`
abbrev pub is_shown : Heap → DiscoveredService → Bool
is_shown h s = elim s.process [ none ↦ true | some a ↦ not (h.process_at a).disabled ]

-- The loop over the services: the names that are notified, in order, and the names then seen.
pub notify_new :
    Bool → Heap → List DiscoveredService → GoMap Bytes Bool → List Bytes × GoMap Bytes Bool
notify_new watcher_started h [] seen = ([], seen)
notify_new watcher_started h (s ∷ services) seen =
    let is_new = not (is_seen seen s.subdomain) in
    let (names, seen') =
      notify_new watcher_started h services (if is_new then put s.subdomain true seen else seen) in
    (if is_new && (watcher_started && is_shown h s) then s.subdomain ∷ names else names, seen')

-- The two updates of `onProcessesChanged`.
pub scan_processes : Mappings → Heap → List DiscoveredService → RouteRegistry → RouteRegistry × Heap
scan_processes mappings h services r =
    let (r', h') =
      update_services r mappings h from_process (filter_by_source services from_process) in
    update_services r' mappings h' from_well_known (filter_by_source services from_well_known)

-- `onProcessesChanged`: the registry, the heap, the names notified and the names seen.
pub on_processes_changed :
    Mappings
    → Bool
    → Heap
    → List DiscoveredService
    → RouteRegistry
    → GoMap Bytes Bool
    → RouteRegistry × Heap × List Bytes × GoMap Bytes Bool
unfolding scan_processes notify_new
on_processes_changed mappings watcher_started h services r seen =
    let (r', h') = scan_processes mappings h services r in
    let (names, seen') = notify_new watcher_started h' services seen in (r', h', names, seen')
