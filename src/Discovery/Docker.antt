-- ===== src/Discovery/Docker.antt =====
-- internal/discovery/docker.go: which service a container is. `ContainerList` of the Docker client is
-- the argument `containers`; Docker sends NetworkSettings with every container, and in it the text of
-- an address or nothing.
pub mod Route
pub mod Listing
pub mod Ports
mod Tests
use localproxy.Base.{
  ℕ, suc, ◌+◌, ℤ, pos, negsuc, is_positive, Bytes, codes, List, [], ◌∷◌, ◌++◌, Option, none, some,
  Bool, true, false, not, ◌&&◌, ◌||◌, ltb, leb, nat_beq, nat_eq, if◌then◌else◌, length, set,
  get_elem?, bytes_beq, bytes_eq, int_beq,
}
use localproxy.Base.GoMap.{GoMap, lookup, put}
use localproxy.Base.Text.{split, trim_prefix, has_byte}
use localproxy.Base.Atoi.{atoi}
use localproxy.Net.{Addr, v4, invalid, AddrPort, loopback}
use localproxy.Discovery.Types.{
  from_docker, DockerListener, DockerInfo, DiscoveredService, ServiceInfo, Heap, set_docker,
  Objects,
}
use localproxy.Discovery.WellKnown.{PortProtocol, http, tcp, well_known_ports}

-- The field `IPAddress` of a network: empty, or the text of an address.
pub data Address : Type 0 where
  no_address : Address
  v4_text : ℕ → Address
  v6_text : ℕ → Address

-- `container.Port`; the ports are uint16, and `kind` is the field `Type`.
pub record PortSummary : Type 0 where
  pub private_port : ℕ
  pub public_port : ℕ
  pub kind : Bytes

-- The fields of `container.Summary` that are read. The networks are a map, in the order of a `range`.
pub record Summary : Type 0 where
  pub id : Bytes
  pub names : List Bytes
  pub labels : GoMap Bytes Bytes
  pub networks : List Address
  pub ports : List PortSummary

-- The reasons that are reported; the second holds what makes the text of the endpoint.
pub data Reason : Type 0 where
  no_exposed_ports : Reason
  invalid_endpoint : Address → ℤ → Reason

-- What `parseContainer` returns: nothing, a reason, or a service and the objects with its `Docker`.
pub data Parsed : Type 0 where
  skipped : Parsed
  refused : Reason → Parsed
  routed : DiscoveredService → Objects → Parsed

-- `netip.ParseAddrPort(fmt.Sprintf("%s:%d", ip, port))`: an IPv6 address would need brackets.
abbrev pub parse_addr_port : Address → ℤ → Option AddrPort
parse_addr_port (v4_text a) (pos port) =
    if leb port 65535 then some (record { ip = v4 a; port = port }) else none
parse_addr_port _ _ = none

abbrev pub loopback_text : Address
loopback_text = v4_text 2130706433

-- The address of the first network that has one, 127.0.0.1 if none has.
pub container_ip : List Address → Address
container_ip [] = loopback_text
container_ip (no_address ∷ networks) = container_ip networks
container_ip (v4_text a ∷ networks) = v4_text a
container_ip (v6_text a ∷ networks) = v6_text a

-- `hasCustomName`
abbrev pub has_custom_name : Bytes → Bool
has_custom_name name = not (nat_beq (length (split b'_' name)) 2 && not (has_byte b'-' name))

-- The zero `netip.AddrPort` stands where the endpoint does not parse.
abbrev pub or_zero : Option AddrPort → AddrPort
or_zero none = record { ip = invalid; port = 0 }
or_zero (some endpoint) = endpoint

pub docker_listeners : Address → List PortSummary → List DockerListener
docker_listeners ip [] = []
docker_listeners ip (p ∷ ports) =
    record {
      endpoint = or_zero (parse_addr_port ip (pos p.private_port));
      private_port = p.private_port;
      kind = p.kind;
      service_protocol = [];
    }
    ∷ docker_listeners ip ports

-- The number in a label, 0 without the label.
abbrev pub label_number : Bytes → Summary → ℤ
label_number label c = elim (lookup label c.labels) [ none ↦ pos 0 | some text ↦ atoi text ]

-- The first published port.
pub public_port : List PortSummary → Option ℕ
public_port [] = none
public_port (p ∷ ports) = if ltb 0 p.public_port then some p.public_port else public_port ports

-- The block under `port == 0`: address and port.
pub default_port : Address → List PortSummary → Address × ℤ
unfolding public_port
default_port ip ports = elim (public_port ports) [
  | some port ↦ (loopback_text, pos port)
  | none ↦ elim ports [ [] ↦ (ip, pos 0) | p ∷ _ ↦ (ip, pos p.private_port) ]
]

-- The loop under `tcpPort > 0`.
pub tcp_service : List DockerListener → Option ServiceInfo
tcp_service [] = none
tcp_service (dp ∷ ports) =
    let rest = tcp_service ports in
    if not (bytes_beq dp.kind (codes "tcp"))
    then rest
    else elim (lookup dp.private_port well_known_ports) [
      | none ↦ rest
      | some info ↦ elim info.protocol [
        | tcp ↦ some (record { endpoint = dp.endpoint; protocol = info.subdomain; version = [] })
        | http ↦ rest
      ]
    ]

abbrev pub container_subdomain : Bytes → Summary → Bytes
container_subdomain name c = elim (lookup (codes "localproxy.subdomain") c.labels) [
  | none ↦ name
  | some label ↦ if bytes_beq label [] then name else label
]

-- Address and port of a container: the label's port, or the default.
pub choose_port : Summary → Address × ℤ
unfolding default_port container_ip
choose_port c =
    let port = label_number (codes "localproxy.port") c in
    if int_beq port (pos 0)
    then default_port (container_ip c.networks) c.ports
    else (container_ip c.networks, port)

-- The service that a container with a valid endpoint becomes.
pub container_service : Summary → Bytes → AddrPort → Objects → DiscoveredService × Objects
unfolding tcp_service
container_service c name endpoint o =
    let ports = docker_listeners (container_ip c.networks) c.ports in
    let tcp_port = label_number (codes "localproxy.tcpport") c in
    (
      record {
        subdomain = container_subdomain name c;
        endpoint = endpoint;
        tcp_port = tcp_port;
        source = from_docker;
        process = none;
        docker = some o.next;
        folder = none;
        service = if is_positive tcp_port then tcp_service ports else none;
      },
      record {
        heap = set_docker o.heap o.next (record {
          id = c.id;
          name = name;
          has_custom_name = has_custom_name name;
          ports = ports;
        });
        next = o.next + 1;
      },
    )

-- `parseContainer` of a container with a name.
pub parse_named : Summary → Bytes → Objects → Parsed
unfolding choose_port container_service
parse_named c name o =
    let (ip, port) = choose_port c in
    if int_beq port (pos 0) && int_beq (label_number (codes "localproxy.tcpport") c) (pos 0)
    then refused no_exposed_ports
    else elim (parse_addr_port ip port) [
      | none ↦ refused (invalid_endpoint ip port)
      | some endpoint ↦ let (svc, o') = container_service c name endpoint o in routed svc o'
    ]

-- `parseContainer`
pub parse_container : Summary → Objects → Parsed
unfolding parse_named
parse_container c o = elim c.names [
  | [] ↦ skipped
  | first ∷ _ ↦ parse_named c (trim_prefix first (codes "/")) o
]
