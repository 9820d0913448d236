-- ===== src/Discovery/Docker/Ports/Marks.antt =====
-- Which ports of a container `onServiceDiscovered` marks with which protocol.
use localproxy.Base.{
  ℕ, zero, suc, ◌+◌, ◌<◌, ◌≡◌, refl, Bytes, List, [], ◌∷◌, ◌++◌, Option, none, some, Bool, false,
  ◌&&◌, ◌||◌, if◌then◌else◌, set, get_elem?, nat_beq, nat_beq_iff, nat_eq, arith, Option-cases,
  Bool-cases, inl, inr,
}
use localproxy.Base.GoMap.{GoMap, put, lookup-put}
use localproxy.Discovery.Types.{DiscoveredService, DockerListener, ServiceInfo, Heap}
use localproxy.Discovery.Docker.Ports.{
  indices_of, is_tcp, tcp_targets, mark_ports, mark_found, on_service_discovered,
}

abbrev has_index : ℕ → List ℕ → Bool
has_index i [] = false
has_index i (j ∷ indices) = nat_beq j i || has_index i indices

has_index-append :
    (i : ℕ) (xs ys : List ℕ) → has_index i (xs ++ ys) ≡ (has_index i xs || has_index i ys)
has_index-append i [] ys = refl
has_index-append i (x ∷ xs) ys = ground (arith, has_index-append i xs ys)

-- The protocol of the last service found at the port.
unfoldable pub last_protocol : ℕ → List ServiceInfo → Option Bytes
last_protocol port [] = none
last_protocol port (s ∷ services) = elim (last_protocol port services) [
  | some later ↦ some later
  | none ↦ if nat_beq s.endpoint.port port then some s.protocol else none
]

-- What becomes of a port.
abbrev pub marked : List ServiceInfo → DockerListener → DockerListener
marked services dp = elim (if is_tcp dp then last_protocol dp.endpoint.port services else none) [
  | none ↦ dp
  | some protocol ↦ record dp { service_protocol = protocol }
]

get_elem?-set :
    (ports : List DockerListener) (i j : ℕ) (dp dq : DockerListener)
    → get_elem? ports i ≡ some dq
    → get_elem? (set ports i dp) j ≡ (if nat_beq i j then some dp else get_elem? ports j)
get_elem?-set [] i j dp dq e = absurd (ground arith)
get_elem?-set (p ∷ ports) zero zero dp dq e = ground arith
get_elem?-set (p ∷ ports) zero (suc j) dp dq e = ground arith
get_elem?-set (p ∷ ports) (suc i) zero dp dq e = ground arith
get_elem?-set (p ∷ ports) (suc i) (suc j) dp dq e = ground (arith, get_elem?-set ports i j dp dq e)

get_elem?-mark_ports :
    (indices : List ℕ) (protocol : Bytes) (ports : List DockerListener) (i : ℕ)
    → get_elem? (mark_ports indices protocol ports) i ≡ elim (get_elem? ports i) [
      | none ↦ none
      | some dp ↦
          some (if has_index i indices then record dp { service_protocol = protocol } else dp)
    ]
unfolding mark_ports
get_elem?-mark_ports [] protocol ports i = ground arith
get_elem?-mark_ports (j ∷ indices) protocol ports i = elim (Option-cases (get_elem? ports j)) [
  | inl e ↦ ground (arith, get_elem?-mark_ports indices protocol ports i, nat_beq_iff j i)
  | inr (dq, e) ↦
      let next = set ports j (record dq { service_protocol = protocol }) in
      ground (
        arith,
        get_elem?-mark_ports indices protocol next i,
        get_elem?-set ports j i (record dq { service_protocol = protocol }) dq e,
        nat_beq_iff j i,
      )
]

-- The index of a port is filed under its number, if it is a TCP port.
abbrev Files : GoMap ℕ (List ℕ) → List DockerListener → Type 0
Files m ports =
    (i port : ℕ)
    → has_index i (indices_of m port) ≡ elim (get_elem? ports i) [
      | none ↦ false
      | some dp ↦ is_tcp dp && nat_beq dp.endpoint.port port
    ]

-- Whether the port with this number stands at the index, in a list that starts at `j`.
abbrev stands_at : ℕ → List DockerListener → ℕ → ℕ → Bool
stands_at j [] port k = false
stands_at j (dp ∷ ports) port k =
    (nat_beq j k && (is_tcp dp && nat_beq dp.endpoint.port port)) || stands_at (j + 1) ports port k

has_index-tcp_targets :
    (j : ℕ) (ports : List DockerListener) (m : GoMap ℕ (List ℕ)) (port k : ℕ)
    → has_index k (indices_of (tcp_targets j ports m).1 port)
      ≡ (has_index k (indices_of m port) || stands_at j ports port k)
unfolding tcp_targets
has_index-tcp_targets j [] m port k = ground arith
has_index-tcp_targets j (dp ∷ ports) m port k =
    let own = dp.endpoint.port in
    let filed = put own (indices_of m own ++ (j ∷ [])) m in
    elim (Bool-cases (is_tcp dp)) [
      | inl here ↦ ground (
        arith,
        has_index-tcp_targets (j + 1) ports filed port k,
        lookup-put own port (indices_of m own ++ (j ∷ [])) m,
        nat_beq_iff own port,
        has_index-append k (indices_of m own) (j ∷ []),
      )
      | inr there ↦ ground (arith, has_index-tcp_targets (j + 1) ports m port k)
    ]

stands_at-below :
    (j : ℕ) (ports : List DockerListener) (port k : ℕ) → k < j → stands_at j ports port k ≡ false
stands_at-below j [] port k h = refl
stands_at-below j (dp ∷ ports) port k h =
    ground (arith, stands_at-below (j + 1) ports port k, nat_beq_iff j k)

stands_at-get_elem? :
    (j : ℕ) (ports : List DockerListener) (port i : ℕ)
    → stands_at j ports port (j + i) ≡ elim (get_elem? ports i) [
      | none ↦ false
      | some dp ↦ is_tcp dp && nat_beq dp.endpoint.port port
    ]
stands_at-get_elem? j [] port i = refl
stands_at-get_elem? j (dp ∷ ports) port zero =
    ground (arith, stands_at-below (j + 1) ports port (j + 0), nat_beq_iff j (j + 0))
stands_at-get_elem? j (dp ∷ ports) port (suc i) =
    let e : j + suc i ≡ j + 1 + i = omega arith in
    rw e (ground (arith, stands_at-get_elem? (j + 1) ports port i, nat_beq_iff j (j + 1 + i)))

tcp_targets-Files : (ports : List DockerListener) → Files (tcp_targets 0 ports []).1 ports
tcp_targets-Files ports i port =
    ground (arith, has_index-tcp_targets 0 ports [] port i, stands_at-get_elem? 0 ports port i)

-- To mark the filed indices keeps them filed: only the protocol of a port changes.
mark_ports-Files :
    (m : GoMap ℕ (List ℕ)) (indices : List ℕ) (protocol : Bytes) (ports : List DockerListener)
    → Files m ports
    → Files m (mark_ports indices protocol ports)
mark_ports-Files m indices protocol ports f i port =
    ground (arith, f i port, get_elem?-mark_ports indices protocol ports i)

mark_found-marked :
    (m : GoMap ℕ (List ℕ)) (own : ℕ) (services : List ServiceInfo) (ports : List DockerListener)
    (service : Option ServiceInfo) (i : ℕ)
    → Files m ports
    → get_elem? (mark_found m own services (ports, service)).0 i
      ≡ elim (get_elem? ports i) [ none ↦ none | some dp ↦ some (marked services dp) ]
unfolding mark_found last_protocol
mark_found-marked m own [] ports service i f = ground arith
mark_found-marked m own (s ∷ services) ports service i f =
    let indices = indices_of m s.endpoint.port in
    let next = mark_ports indices s.protocol ports in
    let later =
      mark_found-marked m own services next
        (if nat_beq s.endpoint.port own then some s else service) i
        (mark_ports-Files m indices s.protocol ports f) in
    elim (Option-cases (get_elem? ports i)) [
      | inl e ↦ ground (arith, later, get_elem?-mark_ports indices s.protocol ports i)
      | inr (dp, e) ↦ ground (
        arith,
        later,
        get_elem?-mark_ports indices s.protocol ports i,
        f i s.endpoint.port,
        nat_beq_iff dp.endpoint.port s.endpoint.port,
        nat_beq_iff s.endpoint.port dp.endpoint.port,
      )
    ]

-- When a probe of the TCP ports of a container has answered, every TCP port at whose number a service
-- was found carries the protocol of the last such service, and every other port is as it was; the
-- other fields of the ports, and the rest of the Docker object, do not change.
pub on_service_discovered-marked :
    (a : ℕ) (services : List ServiceInfo) (svc : DiscoveredService) (h : Heap) (i : ℕ)
    → let docker = h.docker_at a in
      let m = (tcp_targets 0 docker.ports []).1 in
      let docker' = (on_service_discovered a m services svc h).1.docker_at a in
      (get_elem? docker'.ports i
        ≡ elim (get_elem? docker.ports i) [ none ↦ none | some dp ↦ some (marked services dp) ])
      × (docker'.id ≡ docker.id)
      × (docker'.name ≡ docker.name)
      × (docker'.has_custom_name ≡ docker.has_custom_name)
unfolding on_service_discovered
on_service_discovered-marked a services svc h i =
    let docker = h.docker_at a in
    let m = (tcp_targets 0 docker.ports []).1 in
    let eq =
      mark_found-marked m svc.endpoint.port services docker.ports svc.service i
        (tcp_targets-Files docker.ports) in
    (
      ground (arith, eq, nat_beq_iff a a),
      ground (arith, nat_beq_iff a a),
      ground (arith, nat_beq_iff a a),
      ground (arith, nat_beq_iff a a),
    )
