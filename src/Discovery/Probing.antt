-- ===== src/Discovery/Probing.antt =====
-- internal/discovery/fingerprint.go: `ProbeEndpoints`, over the answers of the scanner, which is a third
-- party's. The discovery marks are those of pkg/tshark/capture.go.
pub mod Rounds
mod Tests
use localproxy.Base.{
  ℕ, suc, ◌+◌, ◌%◌, ◌^◌, Bytes, List, [], ◌∷◌, Option, none, some, Bool, true, false, not, ◌&&◌,
  ◌||◌, if◌then◌else◌,
}
use localproxy.Net.{Addr, AddrPort}
use localproxy.Discovery.Types.{ServiceInfo}
use localproxy.Tshark.Capture.{Discovering, mark_discovery, clear_discovery}

-- A service that the scanner has found; `Port` is not negative.
pub record FoundService : Type 0 where
  pub ip : Bytes
  pub port : ℕ
  pub protocol : Bytes
  pub version : Bytes

-- What happens in one round: whether the context is done before the delay is over, what the scanner answers
-- (`none` is an error), and whether the result is sent before the context is done.
pub record Attempt : Type 0 where
  pub cancelled : Bool
  pub scanned : Option (List FoundService)
  pub sends : Bool

abbrev pub mark_all : List AddrPort → Discovering → Discovering
mark_all [] d = d
mark_all (a ∷ addrs) d = mark_all addrs (mark_discovery a d)

abbrev pub clear_all : List AddrPort → Discovering → Discovering
clear_all [] d = d
clear_all (a ∷ addrs) d = clear_all addrs (clear_discovery a d)

-- The `ServiceInfo` of each address that parses.
pub services_of : (Bytes → Option Addr) → List FoundService → List ServiceInfo
services_of parse_addr [] = []
services_of parse_addr (f ∷ fs) =
    let rest = services_of parse_addr fs in
    elim (parse_addr f.ip) [
      | none ↦ rest
      | some ip ↦
          record {
            endpoint = record { ip = ip; port = f.port % 2 ^ 16 };
            protocol = f.protocol;
            version = f.version;
          }
          ∷ rest
    ]

-- How the rounds end: how many scans were made, and what was sent.
pub record Probed : Type 0 where
  pub scans : ℕ
  pub sent : Option (List ServiceInfo)

abbrev pub one_more : Probed → Probed
one_more p = record p { scans = p.scans + 1 }

-- The loop over `retryDelays`, from a round that waits or not.
pub probe_rounds : (Bytes → Option Addr) → Bool → List Attempt → Probed
unfolding services_of
probe_rounds parse_addr waits [] = record { scans = 0; sent = none }
probe_rounds parse_addr waits (r ∷ rounds) = elim (waits && r.cancelled) [
  | true ↦ record { scans = 0; sent = none }
  | false ↦ elim r.scanned [
    | none ↦ one_more (probe_rounds parse_addr true rounds)
    | some found ↦ elim found [
      | [] ↦ one_more (probe_rounds parse_addr true rounds)
      | f ∷ fs ↦ record {
        scans = 1;
        sent = if r.sends then some (services_of parse_addr (f ∷ fs)) else none;
      }
    ]
  ]
]

-- The goroutine: how the rounds end, the marks while they last, and the marks at its end. There are three
-- delays, the first of them 0.
pub probe_endpoints :
    (Bytes → Option Addr)
    → List AddrPort
    → Attempt × Attempt × Attempt
    → Discovering
    → Probed × Discovering × Discovering
unfolding probe_rounds
probe_endpoints parse_addr addrs (first, second, third) d =
    let during = mark_all addrs d in
    let probed : Probed = elim addrs [
      | [] ↦ record { scans = 0; sent = none }
      | _ ∷ _ ↦ probe_rounds parse_addr false (first ∷ second ∷ third ∷ [])
    ] in
    (probed, during, clear_all addrs during)
