-- ===== src/Registry/Routes/Update.antt =====
-- `UpdateServices` and `UpdateService`: what the table of services holds afterwards.
use localproxy.Base.{
  ◌≡◌, ◌∙◌, refl, sym, ap, ap₂, Bytes, List, [], ◌∷◌, Option, none, some, not, if◌then◌else◌,
  bytes_beq, bytes_beq_iff, bytes_eq, Option-cases, Bool-cases, inl, inr, arith,
}
use localproxy.Base.GoMap.{GoMap, lookup, lookup-put, HasUniqueKeys, lookup-keep_if}
use localproxy.Discovery.Types.{RouteSource, from_process, source_beq, DiscoveredService, Heap}
use localproxy.Registry.Routes.{
  RouteRegistry, Mappings, resolve_subdomain, remove_by_source, rebuild_folder_groups, priority,
  is_outranked, register, register_all, update_services,
}

-- Every service of the list has the source.
abbrev pub AllFrom : RouteSource → List DiscoveredService → Type 0
AllFrom source [] = Unit {0}
AllFrom source (svc ∷ services) = (svc.source ≡ source) × AllFrom source services

-- The services with the names that `resolveSubdomain` gives them one after the other.
unfoldable pub resolve_all :
    RouteRegistry → Mappings → Heap → List DiscoveredService → List (Bytes × DiscoveredService)
resolve_all r mappings h [] = []
resolve_all r mappings h (svc ∷ services) =
    let (name, h') = resolve_subdomain r mappings h svc in
    (name, svc) ∷ resolve_all r mappings h' services

-- The last service of that name.
abbrev pub last_named : Bytes → List (Bytes × DiscoveredService) → Option DiscoveredService
last_named k [] = none
last_named k ((name, svc) ∷ rest) = elim (last_named k rest) [
  | some later ↦ some later
  | none ↦ if bytes_beq name k then some svc else none
]

-- What a name holds, given what it held and the last service of that name.
abbrev pub holder :
    Bytes → Option DiscoveredService → Option DiscoveredService → Option DiscoveredService
holder k old none = old
holder k old (some svc) = if is_outranked old svc then old else some (record svc { subdomain = k })

abbrev pub with_services : RouteRegistry → GoMap Bytes DiscoveredService → RouteRegistry
with_services r m = record r { services = m }

resolve_subdomain-services :
    (r : RouteRegistry) (m : GoMap Bytes DiscoveredService) (mappings : Mappings) (h : Heap)
    (svc : DiscoveredService)
    → resolve_subdomain (with_services r m) mappings h svc ≡ resolve_subdomain r mappings h svc
unfolding resolve_subdomain
resolve_subdomain-services r m mappings h svc = refl

lookup-register :
    (name k : Bytes) (svc : DiscoveredService) (m : GoMap Bytes DiscoveredService)
    → lookup k (register name svc m)
      ≡ (if bytes_beq name k then holder k (lookup k m) (some svc) else lookup k m)
unfolding register
lookup-register name k svc m =
    ground (arith, bytes_beq_iff name k, lookup-put name k (record svc { subdomain = name }) m)

-- A service of the same source takes the place of one just registered.
holder-holder :
    (source : RouteSource) (k : Bytes) (old : Option DiscoveredService) (a b : DiscoveredService)
    → a.source ≡ source
    → b.source ≡ source
    → holder k (holder k old (some a)) (some b) ≡ holder k old (some b)
unfolding is_outranked
holder-holder source k old a b p q = ground (arith, ap priority (p ∙ sym q))

resolve_all-services :
    (r : RouteRegistry) (m : GoMap Bytes DiscoveredService) (mappings : Mappings) (h : Heap)
    (services : List DiscoveredService)
    → resolve_all (with_services r m) mappings h services ≡ resolve_all r mappings h services
unfolding resolve_all resolve_subdomain
resolve_all-services r m mappings h [] = refl
resolve_all-services r m mappings h (svc ∷ services) =
    ap (λ rest. ((resolve_subdomain r mappings h svc).0, svc) ∷ rest)
      (resolve_all-services r m mappings (resolve_subdomain r mappings h svc).1 services)

pub last_named-source :
    (source : RouteSource) (r : RouteRegistry) (mappings : Mappings) (h : Heap)
    (services : List DiscoveredService) (k : Bytes) (svc : DiscoveredService)
    → AllFrom source services
    → last_named k (resolve_all r mappings h services) ≡ some svc
    → svc.source ≡ source
unfolding resolve_all
last_named-source source r mappings h [] k svc a e = cc
last_named-source source r mappings h (s ∷ services) k svc a e =
    let h' = (resolve_subdomain r mappings h s).1 in
    elim (Option-cases (last_named k (resolve_all r mappings h' services))) [
      | inl none_later ↦ ground arith
      | inr (later, f) ↦
          ground (arith, last_named-source source r mappings h' services k later a.1 f)
    ]

register_all-services :
    (source : RouteSource) (r : RouteRegistry) (mappings : Mappings) (h : Heap)
    (services : List DiscoveredService) (k : Bytes)
    → AllFrom source services
    → lookup k (register_all r mappings h services).0.services
      ≡ holder k (lookup k r.services) (last_named k (resolve_all r mappings h services))
unfolding register_all resolve_all
register_all-services source r mappings h [] k a = refl
register_all-services source r mappings h (svc ∷ services) k a =
    let name = (resolve_subdomain r mappings h svc).0 in
    let h' = (resolve_subdomain r mappings h svc).1 in
    let m = register name svc r.services in
    let ih = register_all-services source (with_services r m) mappings h' services k a.1 in
    let same = resolve_all-services r m mappings h' services in
    elim (Option-cases (last_named k (resolve_all r mappings h' services))) [
      | inl none_later ↦ ground (arith, ih, same, lookup-register name k svc r.services)
      | inr (later, f) ↦ ground (
        arith,
        ih,
        same,
        lookup-register name k svc r.services,
        holder-holder source k (lookup k r.services) svc later a.0
            (last_named-source source r mappings h' services k later a.1 f),
      )
    ]

-- One entry for each name, and each service under its own name.
pub record IsValid (r : RouteRegistry) : Type 0 where
  pub unique : HasUniqueKeys r.services
  pub keyed :
      (k : Bytes) (svc : DiscoveredService) → lookup k r.services ≡ some svc → svc.subdomain ≡ k

-- The groups in force when the services are resolved: a process update makes them anew.
unfoldable pub regrouped :
    RouteRegistry → Heap → RouteSource → List DiscoveredService → RouteRegistry
regrouped r h source services =
    if source_beq source from_process then rebuild_folder_groups h services r else r

-- What a name held, unless it came from the source that is updated.
abbrev pub kept : RouteSource → Option DiscoveredService → Option DiscoveredService
kept source none = none
kept source (some svc) = if source_beq svc.source source then none else some svc

lookup-remove_by_source :
    (source : RouteSource) (k : Bytes) (m : GoMap Bytes DiscoveredService)
    → HasUniqueKeys m
    → lookup k (remove_by_source source m) ≡ kept source (lookup k m)
unfolding remove_by_source
lookup-remove_by_source source k m u =
    ground (arith, lookup-keep_if (λ e. not (source_beq e.1.source source)) k m u)

folder_groups-register_all :
    (r : RouteRegistry) (mappings : Mappings) (h : Heap) (services : List DiscoveredService)
    → (register_all r mappings h services).0.folder_groups ≡ r.folder_groups
unfolding register_all
folder_groups-register_all r mappings h [] = refl
folder_groups-register_all r mappings h (svc ∷ services) =
    let (name, h') = resolve_subdomain r mappings h svc in
    folder_groups-register_all (with_services r (register name svc r.services)) mappings h' services

pub update_services-eq :
    (r : RouteRegistry) (mappings : Mappings) (h : Heap) (source : RouteSource)
    (services : List DiscoveredService)
    → update_services r mappings h source services
      ≡ register_all
          (with_services (regrouped r h source services) (remove_by_source source r.services))
          mappings
          h
          services
unfolding update_services regrouped rebuild_folder_groups
update_services-eq r mappings h source services =
    elim (Bool-cases (source_beq source from_process)) [ inl e ↦ rw e | inr e ↦ rw e ]

-- After an update of one source, a name holds what it held before, with the entries of that source
-- forgotten, unless a service of the update resolves to it; then the last such service takes the name,
-- except where the entry kept outranks it. The groups are those of the update.
pub update_services_lem :
    (r : RouteRegistry) (mappings : Mappings) (h : Heap) (source : RouteSource)
    (services : List DiscoveredService)
    → IsValid r
    → AllFrom source services
    → let r' = (update_services r mappings h source services).0 in
      let resolved = resolve_all (regrouped r h source services) mappings h services in
      ((k : Bytes)
        → lookup k r'.services
          ≡ holder k (kept source (lookup k r.services)) (last_named k resolved))
      × (r'.folder_groups ≡ (regrouped r h source services).folder_groups)
update_services_lem r mappings h source services v a =
    let g = regrouped r h source services in
    let m = remove_by_source source r.services in
    let eq = update_services-eq r mappings h source services in
    (
      (λ k.
          ap (λ u. lookup k u.0.services) eq
          ∙ register_all-services source (with_services g m) mappings h services k a
          ∙ ap₂ (holder k) (lookup-remove_by_source source k r.services v.unique)
              (ap (last_named k) (resolve_all-services g m mappings h services))),
      ap (λ u. u.0.folder_groups) eq
          ∙ folder_groups-register_all (with_services g m) mappings h services,
    )
