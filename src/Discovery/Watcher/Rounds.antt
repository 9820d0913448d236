-- ===== src/Discovery/Watcher/Rounds.antt =====
-- What the watcher knows after a round in which something changed.
use localproxy.Base.{
  ℕ, ◌≡◌, refl, ap, ◌∙◌, List, [], ◌∷◌, map, some, Option, none, if◌then◌else◌, nat_beq, true, not,
  nat_eq, is_some, keep_if, arith, Option-cases, inl, inr,
}
use localproxy.Base.GoMap.{lookup, put, lookup-put}
use localproxy.Discovery.Types.{DiscoveredService, Heap}
use localproxy.Discovery.Watcher.{
  ProcessMap, set_from, is_services_changed, get_new_targets, watch_round,
}
use localproxy.Discovery.Watcher.Changes.{HaveProcess, service_pid, set_from-cons}

-- The last service of a process in a scan.
unfoldable pub last_of : Heap → ℕ → List DiscoveredService → Option DiscoveredService
last_of h pid [] = none
last_of h pid (s ∷ services) = elim (last_of h pid services) [
  | some later ↦ some later
  | none ↦ if nat_beq (service_pid h s) pid then some s else none
]

lookup-set_from_last :
    (h : Heap) (services : List DiscoveredService) (m : ProcessMap) (pid : ℕ)
    → HaveProcess services
    → lookup pid (set_from h services m)
      ≡ elim (last_of h pid services) [ some svc ↦ some svc | none ↦ lookup pid m ]
unfolding set_from last_of
lookup-set_from_last h [] m pid v = refl
lookup-set_from_last h (s ∷ services) m pid v =
    let next = put (service_pid h s) s m in
    ap (lookup pid) (set_from-cons h s services m v.0)
    ∙ ground
        (arith, lookup-set_from_last h services next pid v.1, lookup-put (service_pid h s) pid s m)

lookup-set_processes :
    (h : Heap) (services : List DiscoveredService) (pid : ℕ)
    → HaveProcess services
    → lookup pid (set_from h services []) ≡ last_of h pid services
lookup-set_processes h services pid v = ground (arith, lookup-set_from_last h services [] pid v)

get_new_targets-keep_if :
    (h : Heap) (current : ProcessMap) (services : List DiscoveredService)
    → HaveProcess services
    → get_new_targets h current services
      ≡ map
          (λ s. s.endpoint)
          (keep_if (λ s. not (is_some (lookup (service_pid h s) current))) services)
unfolding get_new_targets
get_new_targets-keep_if h current [] v = refl
get_new_targets-keep_if h current (s ∷ services) v = elim (Option-cases s.process) [
  | inl e ↦ absurd (ground arith)
  | inr (a, e) ↦ ground (arith, get_new_targets-keep_if h current services v.1)
]

-- After a round that found a change, where every service of the scan has a process, each process is known as
-- the last service that the scan shows for it, whatever a probe had added to it before, and a process that
-- the scan does not show is forgotten; only the services of processes that were not known are probed; and
-- the change that is told is the whole scan.
pub watch_round_lem :
    (h : Heap) (services : List DiscoveredService) (current : ProcessMap) (pid : ℕ)
    → HaveProcess services
    → is_services_changed h current services ≡ true
    → let round = watch_round h services current in
      (lookup pid round.current ≡ last_of h pid services)
      × (round.probed
          ≡ map
              (λ s. s.endpoint)
              (keep_if (λ s. not (is_some (lookup (service_pid h s) current))) services))
      × (round.changed ≡ some services)
unfolding watch_round
watch_round_lem h services current pid v c =
    rw (watch_round, c)
      (lookup-set_processes h services pid v, get_new_targets-keep_if h current services v, refl)
