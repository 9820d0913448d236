-- ===== src/Dashboard/Overview/Page.antt =====
-- internal/dashboard/server.go: the page of `serveDashboard`, with the service that is selected.
use localproxy.Base.{
  ℕ, Bytes, codes, List, [], ◌∷◌, ◌++◌, map, Option, none, some, Bool, true, false, not, ◌&&◌, ◌||◌,
  if◌then◌else◌, bytes_beq, bytes_eq, nat_eq, keep_if, itoa,
}
use localproxy.Base.GoMap.{GoMap, lookup, put}
use localproxy.Base.Sorting.{sort_by}
use localproxy.Discovery.Types.{DockerListener}
use localproxy.Discovery.WellKnown.{WellKnownPortInfo, well_known_ports}
use localproxy.Dashboard.Backend.{Backend}
use localproxy.Dashboard.Http.{Response, http_error, written}
use localproxy.Dashboard.LogManager.{LogManager, World}
use localproxy.Dashboard.Overview.{
  BackendWithLogs, ProcessGroup, Sections, collect, docker_backends, process_backends,
  other_disabled, well_known_backends, group_processes,
}

-- The dashboard's own record of a container without a route.
pub record UnroutedContainer : Type 0 where
  pub id : Bytes
  pub name : Bytes
  pub reason : Bytes

-- `GetAllWellKnownPorts` of internal/discovery/wellknown.go; an entry has the port before its record.
abbrev pub get_all_well_known_ports : List (ℕ × WellKnownPortInfo)
get_all_well_known_ports = sort_by (λ e. e.1.subdomain) well_known_ports

abbrev pub is_among : Bytes → List BackendWithLogs → Bool
is_among name [] = false
is_among name (b ∷ bs) = bytes_beq b.backend.subdomain name || is_among name bs

-- `inactiveWellKnown`
pub inactive_well_known : List BackendWithLogs → List (ℕ × WellKnownPortInfo)
inactive_well_known active =
    keep_if (λ e. not (is_among e.1.subdomain active)) get_all_well_known_ports

pub record PortInfo : Type 0 where
  pub udp : Bool
  pub tcp : Bool
  pub service_protocol : Bytes

pub record PortRepr : Type 0 where
  pub port : ℕ
  pub text : Bytes
  pub protocol : Bytes

-- The entry of a port number, made at its first port.
abbrev pub info_at : ℕ → GoMap ℕ PortInfo → PortInfo
info_at n ports = elim (lookup n ports) [
  | none ↦ record { udp = false; tcp = false; service_protocol = [] }
  | some info ↦ info
]

abbrev pub with_port : DockerListener → PortInfo → PortInfo
with_port p info =
    let info = if bytes_beq p.kind (codes "udp") then record info { udp = true } else info in
    if bytes_beq p.kind (codes "tcp")
    then record info {
      tcp = true;
      service_protocol =
          if bytes_beq p.service_protocol [] then info.service_protocol else p.service_protocol;
    }
    else info

-- `portsByNumber`
unfoldable pub ports_by_number : List DockerListener → GoMap ℕ PortInfo → GoMap ℕ PortInfo
ports_by_number [] ports = ports
ports_by_number (p ∷ ps) ports =
    let n = p.endpoint.port in ports_by_number ps (put n (with_port p (info_at n ports)) ports)

abbrev pub port_repr : ℕ × PortInfo → PortRepr
port_repr (n, info) = record {
  port = n;
  text =
      if info.tcp && info.udp
      then itoa n
      else if info.tcp
      then itoa n ++ codes "/tcp"
      else itoa n ++ codes "/udp";
  protocol = info.service_protocol;
}

-- `portRepr`; the order of the ports is that of a map.
unfoldable pub selected_ports : Option BackendWithLogs → List PortRepr
unfolding ports_by_number
selected_ports none = []
selected_ports (some b) = map port_repr (ports_by_number b.backend.docker_ports [])

-- The loop over `allBackends`.
abbrev pub select : Bytes → List BackendWithLogs → Option BackendWithLogs
select name [] = none
select name (b ∷ bs) =
    let later = select name bs in if bytes_beq b.backend.subdomain name then some b else later

abbrev pub grouped_backends : List ProcessGroup → List BackendWithLogs
grouped_backends [] = []
grouped_backends (g ∷ groups) = g.backends ++ grouped_backends groups

pub record Page : Type 0 where
  pub trace_process_logs : Bool
  pub enabled : List BackendWithLogs
  pub docker : List BackendWithLogs
  pub groups : List ProcessGroup
  pub ungrouped : List BackendWithLogs
  pub disabled : List BackendWithLogs
  pub well_known : List BackendWithLogs
  pub inactive : List (ℕ × WellKnownPortInfo)
  pub unrouted : List UnroutedContainer
  pub selected_subdomain : Bytes
  pub selected : Option BackendWithLogs
  pub selected_logs : List Bytes
  pub ports : List PortRepr

-- From the sections to the page.
unfoldable pub page_of : List Bytes → List UnroutedContainer → Bytes → Bool → Sections → Page
unfolding inactive_well_known selected_ports group_processes
page_of bases unrouted service traces s =
    let docker = docker_backends s in
    let (groups, alone) = group_processes bases (process_backends bases s) in
    let known = well_known_backends s in
    let selected = select service (docker ++ alone ++ known ++ grouped_backends groups) in
    record {
      trace_process_logs = traces;
      enabled = s.enabled;
      docker = docker;
      groups = groups;
      ungrouped = alone;
      disabled = other_disabled s;
      well_known = known;
      inactive = inactive_well_known known;
      unrouted = unrouted;
      selected_subdomain = service;
      selected = selected;
      selected_logs = elim selected [ none ↦ [] | some b ↦ b.recent_logs ];
      ports = selected_ports selected;
    }

abbrev pub no_sections : Sections
no_sections = record { enabled = []; disabled = []; well_known = [] }

-- `serveDashboard`, with the path and the query's `service`.
unfoldable pub serve_dashboard :
    List Bytes
    → List UnroutedContainer
    → GoMap Bytes Backend
    → Bytes
    → Bytes
    → LogManager
    → World
    → Response Page × LogManager × World
unfolding page_of collect
serve_dashboard bases unrouted backends path service lm w =
    if not (bytes_beq path (codes "/"))
    then (http_error 404 (codes "404 page not found"), lm, w)
    else let (s, lm', w') = collect backends no_sections lm w in
      (written (page_of bases unrouted service lm.trace_process_logs s), lm', w')
