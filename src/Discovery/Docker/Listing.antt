-- ===== src/Discovery/Docker/Listing.antt =====
-- internal/discovery/docker.go: `listContainers`, which sorts the containers into routed and unrouted.
use localproxy.Base.{
  ℕ, ◌+◌, ◌≤◌, ◌<◌, ◌≡◌, ◌∙◌, ◌&&◌, refl, Bytes, codes, List, [], ◌∷◌, none, some, Bool, true,
  false, arith, List-cases, inl, inr,
}
use localproxy.Base.Sorting.{count}
use localproxy.Base.Text.{trim_prefix}
use localproxy.Net.{is_valid}
use localproxy.Discovery.Types.{DiscoveredService, Objects, Heap}
use localproxy.Discovery.Docker.{
  Summary, Reason, Parsed, skipped, refused, routed, parse_container, parse_named,
}
use localproxy.Discovery.Docker.Route.{container_name, parse_container-routed}

pub record UnroutedContainer : Type 0 where
  pub id : Bytes
  pub name : Bytes
  pub reason : Reason

-- What `listContainers` returns, and the objects it leaves.
pub record Listed : Type 0 where
  pub services : List DiscoveredService
  pub unrouted : List UnroutedContainer
  pub objects : Objects

-- One round of the loop puts the container before what the rest of the loop returns.
abbrev pub list_parsed : Summary → Parsed → (Objects → Listed) → Objects → Listed
list_parsed c skipped rest o = rest o
list_parsed c (refused reason) rest o =
    let l = rest o in
    record l {
      unrouted = record { id = c.id; name = container_name c; reason = reason } ∷ l.unrouted;
    }
list_parsed c (routed svc o') rest o = let l = rest o' in record l { services = svc ∷ l.services }

-- `listContainers`, with the containers that the client lists.
unfoldable pub list_containers : List Summary → Objects → Listed
list_containers [] o = record { services = []; unrouted = []; objects = o }
list_containers (c ∷ containers) o =
    list_parsed c (parse_container c o) (list_containers containers) o

abbrev pub has_name : Summary → Bool
has_name c = elim c.names [ [] ↦ false | _ ∷ _ ↦ true ]

-- Id and name of a container; and those that a service shows, by its object, and a container that is not
-- routed.
abbrev pub shown : Summary → Bytes × Bytes
shown c = (c.id, container_name c)

abbrev pub service_shown : Heap → DiscoveredService → Bytes × Bytes
service_shown h svc = elim svc.docker [
  | none ↦ ([], [])
  | some a ↦ ((h.docker_at a).id, (h.docker_at a).name)
]

abbrev pub unrouted_shown : UnroutedContainer → Bytes × Bytes
unrouted_shown u = (u.id, u.name)

-- Whether a container shows up in the listing at all.
abbrev shows_up : Parsed → Bool
shows_up skipped = false
shows_up (refused _) = true
shows_up (routed _ _) = true

shows_up-parse_named :
    (c : Summary) (name : Bytes) (o : Objects) → shows_up (parse_named c name o) ≡ true
unfolding parse_named
shows_up-parse_named c name o = ground arith

shows_up-parse_container : (c : Summary) (o : Objects) → shows_up (parse_container c o) ≡ has_name c
unfolding parse_container
shows_up-parse_container c o = elim (List-cases c.names) [
  | inl e ↦ ground arith
  | inr (first, others, e) ↦
      ground (arith, shows_up-parse_named c (trim_prefix first (codes "/")) o)
]

-- Every service has a valid endpoint with a 16-bit port.
abbrev pub AreReachable : List DiscoveredService → Type 0
AreReachable [] = Unit {0}
AreReachable (svc ∷ services) =
    (is_valid svc.endpoint ≡ true) × (svc.endpoint.port ≤ 65535) × AreReachable services

-- What is listed before the address `next` stays: later containers get later objects.
abbrev IsKept : Objects → Objects → Type 0
IsKept o o' = (o.next ≤ o'.next) × ((b : ℕ) → b < o.next → o'.heap.docker_at b ≡ o.heap.docker_at b)

IsKept-trans : (o o' o'' : Objects) → IsKept o o' → IsKept o' o'' → IsKept o o''
IsKept-trans o o' o'' v w =
    (omega (arith, v.0, w.0), λ b low. w.1 b (omega (arith, v.0)) ∙ v.1 b low)

list_parsed-IsKept :
    (c : Summary) (containers : List Summary) (o : Objects) (p : Parsed)
    → parse_container c o ≡ p
    → ((o' : Objects) → IsKept o' (list_containers containers o').objects)
    → IsKept o (list_parsed c p (list_containers containers) o).objects
list_parsed-IsKept c containers o skipped e rest = rest o
list_parsed-IsKept c containers o (refused reason) e rest = rest o
list_parsed-IsKept c containers o (routed svc o') e rest =
    let made = (parse_container-routed c o svc o' e).4 in
    IsKept-trans o o' (list_containers containers o').objects
      (omega (arith, made.next_free), λ b low. made.kept b (λ same. omega (arith, same))) (rest o')

list_containers-IsKept :
    (containers : List Summary) (o : Objects) → IsKept o (list_containers containers o).objects
unfolding list_containers
list_containers-IsKept [] o = (omega arith, λ b low. refl)
list_containers-IsKept (c ∷ containers) o =
    list_parsed-IsKept c containers o (parse_container c o) refl (list_containers-IsKept containers)

module _ (p : Bytes × Bytes → Bool) where
  -- How many of what is listed show an id and a name with the property.
  abbrev pub count_shown : Listed → ℕ
  count_shown l =
      count (λ svc. p (service_shown l.objects.heap svc)) l.services
      + count (λ u. p (unrouted_shown u)) l.unrouted

  abbrev pub count_named : List Summary → ℕ
  count_named containers = count (λ c. has_name c && p (shown c)) containers

  list_parsed-count :
      (c : Summary) (containers : List Summary) (o : Objects) (r : Parsed)
      → parse_container c o ≡ r
      → ((o' : Objects) → count_shown (list_containers containers o') ≡ count_named containers)
      → count_shown (list_parsed c r (list_containers containers) o) ≡ count_named (c ∷ containers)
  list_parsed-count c containers o skipped e rest =
      ground (arith, rest o, shows_up-parse_container c o)
  list_parsed-count c containers o (refused reason) e rest =
      ground (arith, rest o, shows_up-parse_container c o)
  list_parsed-count c containers o (routed svc o') e rest =
      let made = parse_container-routed c o svc o' e in
      let later = list_containers containers o' in
      let object : later.objects.heap.docker_at o.next ≡ o'.heap.docker_at o.next =
        (list_containers-IsKept containers o').1 o.next (omega (arith, made.4.next_free)) in
      let own : service_shown later.objects.heap svc ≡ shown c =
        rw (made.3, object, made.4.id_of, made.4.name_of) refl in
      rw own (ground (arith, rest o', shows_up-parse_container c o))

  -- Every container with a name is listed once, under its id and its name, as a service by the object that
  -- the service points to, or as unrouted; and no other container is.
  list_containers-count :
      (containers : List Summary) (o : Objects)
      → count_shown (list_containers containers o) ≡ count_named containers
  unfolding list_containers
  list_containers-count [] o = refl
  list_containers-count (c ∷ containers) o =
      list_parsed-count c containers o (parse_container c o) refl (list_containers-count containers)

list_parsed-AreReachable :
    (c : Summary) (containers : List Summary) (o : Objects) (p : Parsed)
    → parse_container c o ≡ p
    → ((o' : Objects) → AreReachable (list_containers containers o').services)
    → AreReachable (list_parsed c p (list_containers containers) o).services
list_parsed-AreReachable c containers o skipped e rest = rest o
list_parsed-AreReachable c containers o (refused reason) e rest = rest o
list_parsed-AreReachable c containers o (routed svc o') e rest =
    let made = parse_container-routed c o svc o' e in (made.0, made.1, rest o')

list_containers-AreReachable :
    (containers : List Summary) (o : Objects) → AreReachable (list_containers containers o).services
unfolding list_containers
list_containers-AreReachable [] o = tt
list_containers-AreReachable (c ∷ containers) o =
    list_parsed-AreReachable c containers o (parse_container c o) refl
      (list_containers-AreReachable containers)

-- The containers with a name are listed as often as they are there and no other is, each under its id and
-- its name, as a service by the object that the service points to or as unrouted: whatever property of id
-- and name is counted. Every service has a valid endpoint with a 16-bit port.
pub list_containers_lem :
    (containers : List Summary) (o : Objects)
    → let l = list_containers containers o in
      ((p : Bytes × Bytes → Bool)
        → count (λ svc. p (service_shown l.objects.heap svc)) l.services
            + count (λ u. p (unrouted_shown u)) l.unrouted
          ≡ count (λ c. has_name c && p (shown c)) containers)
      × AreReachable l.services
list_containers_lem containers o =
    (λ p. list_containers-count p containers o, list_containers-AreReachable containers o)
