-- ===== src/Discovery/Watcher/Changes.antt =====
-- When the watcher takes a scan for a change, and what it then keeps.
use localproxy.Base.{
  ℕ, suc, ◌+◌, ◌≤◌, ◌<◌, ◌≡◌, refl, ap, ◌∙◌, List, [], ◌∷◌, none, some, Bool, true, false, not,
  ◌||◌, ◌&&◌, if◌then◌else◌, length, nat_beq, nat_beq_iff, nat_eq, is_some, arith, Bool-cases, inl,
  inr,
}
use localproxy.Base.GoMap.{lookup, put, lookup-put}
use localproxy.Discovery.Types.{DiscoveredService, Heap}
use localproxy.Discovery.Watcher.{
  ProcessMap, set_from, set_processes, is_moved, any_moved, is_services_changed,
}

-- The services of a scan all have a process.
abbrev pub HaveProcess : List DiscoveredService → Type 0
HaveProcess [] = Unit {0}
HaveProcess (s ∷ services) = (is_some s.process ≡ true) × HaveProcess services

-- The id of the process, 0 where there is none.
abbrev pub service_pid : Heap → DiscoveredService → ℕ
service_pid h s = elim s.process [ none ↦ 0 | some a ↦ (h.process_at a).pid ]

abbrev pub has_pid : Heap → ℕ → List DiscoveredService → Bool
has_pid h pid [] = false
has_pid h pid (s ∷ services) = nat_beq (service_pid h s) pid || has_pid h pid services

-- No two services are of one process.
abbrev pub are_distinct : Heap → List DiscoveredService → Bool
are_distinct h [] = true
are_distinct h (s ∷ services) =
    not (has_pid h (service_pid h s) services) && are_distinct h services

length-put :
    (k : ℕ) (v : DiscoveredService) (m : ProcessMap)
    → length (put k v m) ≡ (if is_some (lookup k m) then length m else suc (length m))
length-put k v [] = refl
length-put k v ((j, w) ∷ m) = ground (arith, length-put k v m)

-- Whether an id of the services is in the map.
abbrev meets : Heap → List DiscoveredService → ProcessMap → Bool
meets h [] m = false
meets h (s ∷ services) m = is_some (lookup (service_pid h s) m) || meets h services m

meets-put :
    (h : Heap) (services : List DiscoveredService) (pid : ℕ) (v : DiscoveredService)
    (m : ProcessMap)
    → meets h services (put pid v m) ≡ (has_pid h pid services || meets h services m)
meets-put h [] pid v m = refl
meets-put h (s ∷ services) pid v m = ground (
  arith,
  meets-put h services pid v m,
  lookup-put pid (service_pid h s) v m,
  nat_beq_iff pid (service_pid h s),
)

pub set_from-cons :
    (h : Heap) (s : DiscoveredService) (services : List DiscoveredService) (m : ProcessMap)
    → is_some s.process ≡ true
    → set_from h (s ∷ services) m ≡ set_from h services (put (service_pid h s) s m)
unfolding set_from
set_from-cons h s services m p =
    let stored : (elim s.process [ none ↦ m | some a ↦ put (h.process_at a).pid s m ])
        ≡ put (service_pid h s) s m =
      ground arith in
    ap (set_from h services) stored

-- The map has one entry for each id.
length-set_from :
    (h : Heap) (services : List DiscoveredService) (m : ProcessMap)
    → HaveProcess services
    → (length (set_from h services m) ≤ length services + length m)
      × ((are_distinct h services && not (meets h services m)) ≡ true
          → length (set_from h services m) ≡ length services + length m)
      × ((are_distinct h services && not (meets h services m)) ≡ false
          → length (set_from h services m) < length services + length m)
unfolding set_from
length-set_from h [] m v = ground arith
length-set_from h (s ∷ services) m v =
    let next = put (service_pid h s) s m in
    let ih = length-set_from h services next v.1 in
    rw (set_from-cons h s services m v.0) (
      ground
        (arith, ih, length-put (service_pid h s) s m, meets-put h services (service_pid h s) s m))

-- With distinct ids the map gives every service back.
pub lookup-set_from :
    (h : Heap) (services : List DiscoveredService) (m : ProcessMap) (pid : ℕ)
    → HaveProcess services
    → has_pid h pid services ≡ false
    → lookup pid (set_from h services m) ≡ lookup pid m
unfolding set_from
lookup-set_from h [] m pid v n = refl
lookup-set_from h (s ∷ services) m pid v n = rw (set_from-cons h s services m v.0) (
    ground (
      arith,
      lookup-set_from h services (put (service_pid h s) s m) pid,
      lookup-put (service_pid h s) pid s m,
    ))

is_moved-pid :
    (h : Heap) (m : ProcessMap) (s : DiscoveredService)
    → lookup (service_pid h s) m ≡ some s
    → is_moved h m s ≡ false
is_moved-pid h m s e = ground (arith, nat_beq_iff s.endpoint.port s.endpoint.port)

any_moved-set_from :
    (h : Heap) (services : List DiscoveredService) (m : ProcessMap)
    → HaveProcess services
    → are_distinct h services ≡ true
    → any_moved h (set_from h services m) services ≡ false
unfolding any_moved
any_moved-set_from h [] m v d = refl
any_moved-set_from h (s ∷ services) m v d =
    let next = put (service_pid h s) s m in
    let here : lookup (service_pid h s) (set_from h services next) ≡ some s = ground (
      arith,
      lookup-set_from h services next (service_pid h s) v.1,
      lookup-put (service_pid h s) (service_pid h s) s m,
    ) in
    ap (λ l. any_moved h l (s ∷ services)) (set_from-cons h s services m v.0)
    ∙ ground (
      arith,
      is_moved-pid h (set_from h services next) s here,
      any_moved-set_from h services next v.1,
    )

meets-nil : (h : Heap) (services : List DiscoveredService) → meets h services [] ≡ false
meets-nil h [] = refl
meets-nil h (s ∷ services) = meets-nil h services

-- The same scan once more counts as a change exactly when two of its services are of one process.
is_services_changed-set_processes :
    (h : Heap) (services : List DiscoveredService)
    → HaveProcess services
    → is_services_changed h (set_processes h services) services ≡ not (are_distinct h services)
unfolding is_services_changed
is_services_changed-set_processes h services v =
    let size = length-set_from h services [] v in
    elim (Bool-cases (are_distinct h services)) [
      | inl d ↦ ground (
        arith,
        size,
        meets-nil h services,
        any_moved-set_from h services [] v d,
        nat_beq_iff (length services) (length (set_processes h services)),
      )
      | inr d ↦ ground (
        arith,
        size,
        meets-nil h services,
        nat_beq_iff (length services) (length (set_processes h services)),
      )
    ]
