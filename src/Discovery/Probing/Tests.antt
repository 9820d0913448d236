-- ===== src/Discovery/Probing/Tests.antt =====
-- A probe on small inputs, and the theorem at a concrete input.
use localproxy.Base.{
  ◌≤◌, ◌≡◌, refl, Bytes, codes, [], ◌∷◌, Option, none, some, true, false, not, ◌&&◌, ◌||◌,
  if◌then◌else◌, bytes_beq,
}
use localproxy.Net.{Addr, AddrPort, loopback}
use localproxy.Tshark.Capture.{is_discovering, mark_discovery, clear_discovery}
use localproxy.Discovery.Probing.{FoundService, Attempt, probe_endpoints, probe_rounds, services_of}
use localproxy.Discovery.Probing.Rounds.{
  is_target, first_answering, reached, sent_by, probe_endpoints_lem,
}

abbrev parse_addr : Bytes → Option Addr
parse_addr text = if bytes_beq text (codes "127.0.0.1") then some loopback else none

abbrev database : AddrPort
database = record { ip = loopback; port = 5432 }

abbrev other : AddrPort
other = record { ip = loopback; port = 6379 }

abbrev postgres : FoundService
postgres = record {
  ip = codes "127.0.0.1";
  port = 5432;
  protocol = codes "postgres";
  version = codes "16";
}

-- An error, an answer, and a round that is not needed.
abbrev first : Attempt
first = record { cancelled = false; scanned = none; sends = true }

abbrev second : Attempt
second = record {
  cancelled = false;
  scanned = some (postgres ∷ record postgres { ip = codes "?" } ∷ []);
  sends = true;
}

abbrev third : Attempt
third = record { cancelled = true; scanned = some []; sends = true }

second_answers : (probe_endpoints parse_addr (database ∷ []) (first, second, third) []).0 ≡ record {
  scans = 2;
  sent =
      some (record { endpoint = database; protocol = codes "postgres"; version = codes "16" } ∷ []);
}
unfolding probe_endpoints probe_rounds services_of
second_answers = refl

-- A probe that ends takes the mark from another one of the same endpoint that still runs.
shared_mark :
    is_discovering database
      (probe_endpoints parse_addr
        (database ∷ [])
        (first, second, third)
        (mark_discovery database [])).2
    ≡ false
unfolding probe_endpoints mark_discovery clear_discovery is_discovering
shared_mark = refl

probe_endpoints_lem_example :
    let (probed, during, after) =
      probe_endpoints parse_addr (database ∷ []) (first, second, third) ((other, true) ∷ []) in
    (probed.scans ≤ 3)
    × (probed.sent
        ≡ sent_by parse_addr (first_answering (reached false (first ∷ second ∷ third ∷ []))))
    × (is_discovering other during
        ≡ (is_target other (database ∷ []) || is_discovering other ((other, true) ∷ [])))
    × (is_discovering other after
        ≡ (not (is_target other (database ∷ [])) && is_discovering other ((other, true) ∷ [])))
probe_endpoints_lem_example =
    probe_endpoints_lem parse_addr database [] first second third ((other, true) ∷ []) other
