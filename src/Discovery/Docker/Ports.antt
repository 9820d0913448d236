-- ===== src/Discovery/Docker/Ports.antt =====
-- internal/discovery/docker.go: `DiscoverServiceInfo` and what the answer to its probe changes.
pub mod Marks
use localproxy.Base.{
  ℕ, zero, suc, ◌+◌, ◌≤◌, ◌<◌, ◌≡◌, ◌≢◌, refl, sym, ap, ◌∙◌, Bytes, codes, List, [], ◌∷◌, ◌++◌, map,
  Option, none, some, Bool, true, false, ◌&&◌, ◌||◌, if◌then◌else◌, length, set, get_elem?, ltb,
  nat_beq, nat_beq_iff, nat_eq, bytes_beq, arith, Option-cases, Bool-cases, inl, inr, not,
}
use localproxy.Base.GoMap.{GoMap, lookup, put, lookup-put}
use localproxy.Net.{AddrPort}
use localproxy.Discovery.Types.{
  DiscoveredService, DockerInfo, DockerListener, ServiceInfo, Heap, set_docker,
}

-- `portToIndex[port]`
abbrev pub indices_of : GoMap ℕ (List ℕ) → ℕ → List ℕ
indices_of m port = elim (lookup port m) [ none ↦ [] | some l ↦ l ]

abbrev pub is_tcp : DockerListener → Bool
is_tcp dp = bytes_beq dp.kind (codes "tcp")

-- The loop of `DiscoverServiceInfo` from index `i`: the targets and `portToIndex`.
pub tcp_targets : ℕ → List DockerListener → GoMap ℕ (List ℕ) → List AddrPort × GoMap ℕ (List ℕ)
tcp_targets i [] m = ([], m)
tcp_targets i (dp ∷ ports) m =
    let port = dp.endpoint.port in
    let (targets, m') =
      tcp_targets (i + 1) ports
        (if is_tcp dp then put port (indices_of m port ++ (i ∷ [])) m else m) in
    (if is_tcp dp then dp.endpoint ∷ targets else targets, m')

-- `svc.Docker.Ports[idx].ServiceProtocol = protocol`, for every index.
pub mark_ports : List ℕ → Bytes → List DockerListener → List DockerListener
mark_ports [] protocol ports = ports
mark_ports (i ∷ indices) protocol ports = mark_ports indices protocol (elim (get_elem? ports i) [
  | none ↦ ports
  | some dp ↦ set ports i (record dp { service_protocol = protocol })
])

-- The loop over the services that were found, on the ports of the shared Docker object and on the field
-- `Service`.
pub mark_found :
    GoMap ℕ (List ℕ)
    → ℕ
    → List ServiceInfo
    → List DockerListener × Option ServiceInfo
    → List DockerListener × Option ServiceInfo
unfolding mark_ports
mark_found m own [] (ports, service) = (ports, service)
mark_found m own (s ∷ services) (ports, service) = mark_found m own services (
  mark_ports (indices_of m s.endpoint.port) s.protocol ports,
  if nat_beq s.endpoint.port own then some s else service,
)

-- The first service that speaks HTTP.
pub first_http : List ServiceInfo → Option ServiceInfo
first_http [] = none
first_http (s ∷ services) =
    if bytes_beq s.protocol (codes "http") || bytes_beq s.protocol (codes "https")
    then some s
    else first_http services

-- `derivePorts`, on the service.
pub derive_ports : List DockerListener → List ServiceInfo → DiscoveredService → DiscoveredService
unfolding first_http
derive_ports ports services svc =
    elim (if ltb 1 (length ports) then first_http services else none) [
      | none ↦ svc
      | some s ↦ record svc { endpoint = s.endpoint; service = some s }
    ]

abbrev pub or_first : Option ServiceInfo → List ServiceInfo → Option ServiceInfo
or_first (some s) services = some s
or_first none [] = none
or_first none (s ∷ services) = some s

-- `onServiceDiscovered` with an answer that holds a service, for a service whose Docker object is at
-- the address `a`: what `onDiscovered` is called with, and the heap.
pub on_service_discovered :
    ℕ → GoMap ℕ (List ℕ) → List ServiceInfo → DiscoveredService → Heap → DiscoveredService × Heap
unfolding mark_found derive_ports
on_service_discovered a m services svc h =
    let docker = h.docker_at a in
    let (ports, service) = mark_found m svc.endpoint.port services (docker.ports, svc.service) in
    (
      derive_ports ports services (record svc { service = or_first service services }),
      set_docker h a (record docker { ports = ports }),
    )

-- `DiscoverServiceInfo` and its goroutine, with the answer of `ProbeEndpoints` to the targets: the
-- service that `onDiscovered` is called with, if it is, and the heap.
unfoldable pub discover_service_info :
    (List AddrPort → List ServiceInfo) → DiscoveredService → Heap → Option DiscoveredService × Heap
unfolding tcp_targets on_service_discovered
discover_service_info probe svc h = elim svc.docker [
  | none ↦ (none, h)
  | some a ↦
      let (targets, m) = tcp_targets 0 (h.docker_at a).ports [] in
      elim (probe targets) [
        | [] ↦ (none, h)
        | s ∷ services ↦ elim targets [
          | [] ↦ (none, h)
          | _ ∷ _ ↦
              let (svc', h') = on_service_discovered a m (s ∷ services) svc h in (some svc', h')
        ]
      ]
]
