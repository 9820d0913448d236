-- ===== src/Discovery/Docker/Route.antt =====
-- `parseContainer`: where a container is reached, and why one is not routed.
use localproxy.Base.{
  ℕ, ◌+◌, ◌≤◌, ◌<◌, ◌≡◌, ◌≢◌, refl, subst, List-cases, nat_beq_iff, ℤ, pos, negsuc, Bytes, codes,
  List, [], ◌∷◌, none, some, true, false, ◌&&◌, int_beq, bytes_eq, arith, Option-cases, Bool-cases,
  inl, inr,
}
use localproxy.Base.Text.{trim_prefix}
use localproxy.Net.{AddrPort, loopback, is_valid}
use localproxy.Discovery.Types.{from_docker, DiscoveredService, Objects}
use localproxy.Discovery.Docker.{
  Address, no_address, v4_text, v6_text, PortSummary, Summary, invalid_endpoint, Parsed, skipped,
  refused, routed, parse_addr_port, container_ip, public_port, default_port, label_number,
  choose_port, container_service, parse_named, parse_container, loopback_text,
}

-- The ports are uint16.
abbrev pub AreUint16 : List PortSummary → Type 0
AreUint16 [] = Unit {0}
AreUint16 (p ∷ ports) = (p.private_port ≤ 65535) × (p.public_port ≤ 65535) × AreUint16 ports

public_port-fits :
    (ports : List PortSummary) (port : ℕ)
    → AreUint16 ports
    → public_port ports ≡ some port
    → port ≤ 65535
unfolding public_port
public_port-fits [] port v e = absurd (ground arith)
public_port-fits (p ∷ ports) port v e = ground (arith, public_port-fits ports port v.2)

parse_addr_port-fits :
    (ip : Address) (port : ℤ) (endpoint : AddrPort)
    → parse_addr_port ip port ≡ some endpoint
    → (is_valid endpoint ≡ true) × (endpoint.port ≤ 65535)
parse_addr_port-fits (v4_text a) (pos n) endpoint e = ground arith
parse_addr_port-fits (v4_text a) (negsuc n) endpoint e = ground arith
parse_addr_port-fits no_address port endpoint e = ground arith
parse_addr_port-fits (v6_text a) port endpoint e = ground arith

-- `strings.TrimPrefix(c.Names[0], "/")`, where the container has a name.
abbrev pub container_name : Summary → Bytes
container_name c = elim c.names [ [] ↦ [] | first ∷ _ ↦ trim_prefix first (codes "/") ]

-- The new object of a routed container, and all others as they were.
pub record IsAllocated (c : Summary) (name : Bytes) (o o' : Objects) : Type 0 where
  pub id_of : (o'.heap.docker_at o.next).id ≡ c.id
  pub name_of : (o'.heap.docker_at o.next).name ≡ name
  pub next_free : o'.next ≡ o.next + 1
  pub kept : (b : ℕ) → b ≢ o.next → o'.heap.docker_at b ≡ o.heap.docker_at b

-- What is known of a routed container.
abbrev IsRouted : Summary → Bytes → Objects → Parsed → Type 0
IsRouted c name o (routed svc o') =
    (is_valid svc.endpoint ≡ true)
    × (svc.endpoint.port ≤ 65535)
    × (svc.source ≡ from_docker)
    × (svc.docker ≡ some o.next)
    × IsAllocated c name o o'
IsRouted c name o _ = Unit {0}

parse_named-IsRouted :
    (c : Summary) (name : Bytes) (o : Objects) → IsRouted c name o (parse_named c name o)
unfolding parse_named container_service
parse_named-IsRouted c name o =
    let ip = (choose_port c).0 in
    let port = (choose_port c).1 in
    elim (Bool-cases
      (int_beq port (pos 0) && int_beq (label_number (codes "localproxy.tcpport") c) (pos 0))) [
        | inl nothing ↦ rw (parse_named, nothing) tt
        | inr some_port ↦ elim (Option-cases (parse_addr_port ip port)) [
          | inl bad ↦ rw (parse_named, some_port, bad) tt
          | inr (endpoint, good) ↦
              let fits = parse_addr_port-fits ip port endpoint good in
              rw (parse_named, some_port, good)
                (
                  fits.0,
                  fits.1,
                  refl,
                  refl,
                  record {
                    id_of = ground (arith, nat_beq_iff o.next o.next);
                    name_of = ground (arith, nat_beq_iff o.next o.next);
                    next_free = refl;
                    kept = λ b ne. ground (arith, nat_beq_iff o.next b);
                  },
                )
        ]
      ]

public_port-used : (ports : List PortSummary) (port : ℕ) → public_port ports ≡ some port → 0 < port
unfolding public_port
public_port-used [] port e = absurd (ground arith)
public_port-used (p ∷ ports) port e = ground (arith, public_port-used ports port)

-- Every routed container has a valid endpoint with a 16-bit port, is a Docker service, and has a Docker
-- object of its own, which carries its id and its name; the other objects are as they were.
pub parse_container-routed :
    (c : Summary) (o : Objects) (svc : DiscoveredService) (o' : Objects)
    → parse_container c o ≡ routed svc o'
    → (is_valid svc.endpoint ≡ true)
      × (svc.endpoint.port ≤ 65535)
      × (svc.source ≡ from_docker)
      × (svc.docker ≡ some o.next)
      × IsAllocated c (container_name c) o o'
unfolding parse_container
parse_container-routed c o svc o' e = elim (List-cases c.names) [
  | inl f ↦ let skip : skipped ≡ routed svc o' = rw f at e in cc
  | inr (first, others, f) ↦
      let named : parse_named c (trim_prefix first (codes "/")) o ≡ routed svc o' = ground arith in
      let own = trim_prefix first (codes "/") in
      let kept = subst (IsRouted c own o) named (parse_named-IsRouted c own o) in
      let own_eq : own ≡ container_name c = rw f refl in
      (kept.0, kept.1, kept.2, kept.3, subst (λ n. IsAllocated c n o o') own_eq kept.4)
]

-- A container with a name and a published port, and no number in its port label, is routed to the first
-- published port on 127.0.0.1, whatever its networks are.
parse_container-published :
    (c : Summary) (o : Objects) (first : Bytes) (others : List Bytes) (port : ℕ)
    → c.names ≡ first ∷ others
    → label_number (codes "localproxy.port") c ≡ pos 0
    → AreUint16 c.ports
    → public_port c.ports ≡ some port
    → (svc : DiscoveredService) × (o' : Objects) × (parse_container c o ≡ routed svc o')
      × (svc.endpoint ≡ record { ip = loopback; port = port })
unfolding parse_container parse_named choose_port default_port container_service
parse_container-published c o first others port n l v e =
    let endpoint : AddrPort = record { ip = loopback; port = port } in
    let made = container_service c (trim_prefix first (codes "/")) endpoint o in
    let small = public_port-fits c.ports port v e in
    let used = public_port-used c.ports port e in
    let chosen : choose_port c ≡ (loopback_text, pos port) = ground arith in
    let fits : parse_addr_port loopback_text (pos port) ≡ some endpoint = ground arith in
    let some_port : int_beq (pos port) (pos 0) ≡ false = ground arith in
    (
      made.0,
      made.1,
      rw (parse_container, n) (rw (parse_named, chosen) (rw (some_port, fits) refl)),
      refl,
    )

-- A container with no number in its port label and no published port, but a private one, is not routed
-- if its first network address is an IPv6 address, since that stands without brackets in the endpoint.
parse_container-v6 :
    (c : Summary) (o : Objects) (first : Bytes) (others : List Bytes) (a : ℕ) (p : PortSummary)
    (ports : List PortSummary)
    → c.names ≡ first ∷ others
    → label_number (codes "localproxy.port") c ≡ pos 0
    → c.ports ≡ p ∷ ports
    → public_port c.ports ≡ none
    → 0 < p.private_port
    → container_ip c.networks ≡ v6_text a
    → parse_container c o ≡ refused (invalid_endpoint (v6_text a) (pos p.private_port))
unfolding parse_container parse_named choose_port default_port
parse_container-v6 c o first others a p ports n l q none_public positive six = ground arith
