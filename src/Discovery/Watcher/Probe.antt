-- ===== src/Discovery/Watcher/Probe.antt =====
-- What a probe adds to the services of the watcher.
use localproxy.Base.{
  ℕ, ◌≡◌, refl, List, [], ◌∷◌, map, Option, none, some, Bool, false, ◌||◌, if◌then◌else◌, nat_eq,
  is_some, arith, Option-cases, inl, inr,
}
use localproxy.Base.GoMap.{GoMap, lookup, put, lookup-put}
use localproxy.Net.{AddrPort, endpoint_beq, endpoint_eq}
use localproxy.Discovery.Types.{ServiceInfo}
use localproxy.Discovery.Watcher.{ProcessMap, by_endpoint, with_info, assign, any_info, on_probed}

-- The last service found at the endpoint.
unfoldable pub last_at : AddrPort → List ServiceInfo → Option ServiceInfo
last_at ep [] = none
last_at ep (info ∷ infos) = elim (last_at ep infos) [
  | some later ↦ some later
  | none ↦ if endpoint_beq info.endpoint ep then some info else none
]

lookup-by_endpoint :
    (infos : List ServiceInfo) (found : GoMap AddrPort ServiceInfo) (ep : AddrPort)
    → lookup ep (by_endpoint infos found)
      ≡ elim (last_at ep infos) [ none ↦ lookup ep found | some info ↦ some info ]
unfolding by_endpoint last_at
lookup-by_endpoint [] found ep = refl
lookup-by_endpoint (info ∷ infos) found ep = ground (
  arith,
  lookup-by_endpoint infos (put info.endpoint info found) ep,
  lookup-put info.endpoint ep info found,
)

lookup-assign :
    (found : GoMap AddrPort ServiceInfo) (current : ProcessMap) (pid : ℕ)
    → lookup pid (assign found current)
      ≡ elim (lookup pid current) [ none ↦ none | some svc ↦ some (with_info found svc) ]
unfolding assign
lookup-assign found [] pid = refl
lookup-assign found ((p, svc) ∷ current) pid = ground (arith, lookup-assign found current pid)

-- Whether a service was found at the endpoint of some process.
unfoldable pub any_found : List ServiceInfo → ProcessMap → Bool
any_found infos [] = false
any_found infos ((pid, svc) ∷ current) =
    is_some (last_at svc.endpoint infos) || any_found infos current

any_info-by_endpoint :
    (infos : List ServiceInfo) (current : ProcessMap)
    → any_info (by_endpoint infos []) current ≡ any_found infos current
unfolding any_info any_found
any_info-by_endpoint infos [] = refl
any_info-by_endpoint infos ((pid, svc) ∷ current) =
    ground (arith, any_info-by_endpoint infos current, lookup-by_endpoint infos [] svc.endpoint)

-- A probe gives every process at whose endpoint it has found a service the last such service, and
-- changes nothing else of any process. `onChange` is called exactly when some process got one, with all
-- the services as they then are.
pub on_probed_lem :
    (infos : List ServiceInfo) (current : ProcessMap) (pid : ℕ)
    → let (current', changed) = on_probed infos current in
      (lookup pid current' ≡ elim (lookup pid current) [
        | none ↦ none
        | some svc ↦ some (elim (last_at svc.endpoint infos) [
          | none ↦ svc
          | some info ↦ record svc { service = some info }
        ])
      ])
      × (changed ≡ (if any_found infos current then some (map (λ e. e.1) current') else none))
unfolding on_probed
on_probed_lem infos current pid = (
  elim (Option-cases (lookup pid current)) [
    | inl e ↦ ground (arith, lookup-assign (by_endpoint infos []) current pid)
    | inr (svc, e) ↦ ground (
      arith,
      lookup-assign (by_endpoint infos []) current pid,
      lookup-by_endpoint infos [] svc.endpoint,
    )
  ],
  rw (any_info-by_endpoint infos current) refl,
)
