-- ===== src/Discovery/Probing/Rounds.antt =====
-- How a probe ends, and what it leaves mark_all.
use localproxy.Base.{
  ◌≤◌, ◌≡◌, refl, Bytes, List, [], ◌∷◌, length, Option, none, some, Bool, true, false, not, ◌&&◌,
  ◌||◌, if◌then◌else◌, arith,
}
use localproxy.Base.GoMap.{lookup-put, lookup-delete}
use localproxy.Net.{Addr, AddrPort, endpoint_beq, endpoint_eq}
use localproxy.Discovery.Types.{ServiceInfo}
use localproxy.Tshark.Capture.{Discovering, mark_discovery, clear_discovery, is_discovering}
use localproxy.Discovery.Probing.{
  FoundService, Attempt, mark_all, clear_all, services_of, probe_rounds, probe_endpoints,
}

abbrev pub is_target : AddrPort → List AddrPort → Bool
is_target a [] = false
is_target a (b ∷ addrs) = endpoint_beq b a || is_target a addrs

is_discovering-mark_all :
    (a : AddrPort) (addrs : List AddrPort) (d : Discovering)
    → is_discovering a (mark_all addrs d) ≡ (is_target a addrs || is_discovering a d)
unfolding is_discovering mark_discovery
is_discovering-mark_all a [] d = refl
is_discovering-mark_all a (b ∷ addrs) d =
    ground (arith, is_discovering-mark_all a addrs (mark_discovery b d), lookup-put b a true d)

is_discovering-clear_all :
    (a : AddrPort) (addrs : List AddrPort) (d : Discovering)
    → is_discovering a (clear_all addrs d) ≡ (not (is_target a addrs) && is_discovering a d)
unfolding is_discovering clear_discovery
is_discovering-clear_all a [] d = refl
is_discovering-clear_all a (b ∷ addrs) d =
    ground (arith, is_discovering-clear_all a addrs (clear_discovery b d), lookup-delete b a d)

abbrev pub found_in : Attempt → List FoundService
found_in r = elim r.scanned [ none ↦ [] | some found ↦ found ]

abbrev pub has_answer : Attempt → Bool
has_answer r = elim (found_in r) [ [] ↦ false | _ ∷ _ ↦ true ]

-- The rounds up to the first that is cancelled while it waits.
abbrev pub reached : Bool → List Attempt → List Attempt
reached waits [] = []
reached waits (r ∷ rounds) =
    let rest = reached true rounds in if waits && r.cancelled then [] else r ∷ rest

abbrev pub first_answering : List Attempt → Option Attempt
first_answering [] = none
first_answering (r ∷ rounds) =
    let later = first_answering rounds in if has_answer r then some r else later

-- What the rounds send.
abbrev pub sent_by : (Bytes → Option Addr) → Option Attempt → Option (List ServiceInfo)
sent_by parse_addr none = none
sent_by parse_addr (some r) = if r.sends then some (services_of parse_addr (found_in r)) else none

probe_rounds_lem :
    (parse_addr : Bytes → Option Addr) (waits : Bool) (rounds : List Attempt)
    → ((probe_rounds parse_addr waits rounds).scans ≤ length rounds)
      × ((probe_rounds parse_addr waits rounds).sent
          ≡ sent_by parse_addr (first_answering (reached waits rounds)))
unfolding probe_rounds
probe_rounds_lem parse_addr waits [] = (omega arith, refl)
probe_rounds_lem parse_addr waits (r ∷ rounds) =
    ground (arith, probe_rounds_lem parse_addr true rounds)

-- A probe ends after three scans at most. While it runs its targets are under discovery, besides what was
-- before; at its end none of them is, and every other endpoint is as it was. What it sends are the services
-- of the first round with an answer, among the rounds before one that is cancelled.
pub probe_endpoints_lem :
    (parse_addr : Bytes → Option Addr) (target : AddrPort) (addrs : List AddrPort)
    (first second third : Attempt) (d : Discovering) (a : AddrPort)
    → let (probed, during, after) =
        probe_endpoints parse_addr (target ∷ addrs) (first, second, third) d in
      (probed.scans ≤ 3)
      × (probed.sent
          ≡ sent_by parse_addr (first_answering (reached false (first ∷ second ∷ third ∷ []))))
      × (is_discovering a during ≡ (is_target a (target ∷ addrs) || is_discovering a d))
      × (is_discovering a after ≡ (not (is_target a (target ∷ addrs)) && is_discovering a d))
unfolding probe_endpoints
probe_endpoints_lem parse_addr target addrs first second third d a =
    let rounds = probe_rounds_lem parse_addr false (first ∷ second ∷ third ∷ []) in
    let during = mark_all (target ∷ addrs) d in
    (
      rounds.0,
      rounds.1,
      is_discovering-mark_all a (target ∷ addrs) d,
      ground (
        arith,
        is_discovering-clear_all a (target ∷ addrs) during,
        is_discovering-mark_all a (target ∷ addrs) d,
      ),
    )
