-- ===== src/Registry/Routes.antt =====
-- internal/registry/routes.go: the route registry. A method runs under `mu`, so it is one step. The
-- argument `mappings` is the store's `GetMappingByCwd`, `none` where the registry has no store.
pub mod Update
pub mod Valid
pub mod Resolve
pub mod Groups
mod Tests
use localproxy.Base.{
  ℕ, ◌≤◌, Bytes, codes, List, [], ◌∷◌, ◌++◌, Option, none, some, Bool, true, false, not, ◌&&◌, ltb,
  leb, if◌then◌else◌, length, keep_if, itoa, bytes_eq, bytes_beq, nat_eq,
}
use localproxy.Base.GoMap.{GoMap, lookup, put}
use localproxy.Discovery.Types.{
  RouteSource, from_process, from_docker, from_well_known, from_other, source_beq, ProcessInfo,
  DiscoveredService, Heap, set_process,
}
use localproxy.Discovery.WellKnown.{well_known_ports}
use localproxy.Registry.Mapping.{SubdomainMapping}
use localproxy.Proxy.Route.{Route, plain_route}
use localproxy.Dashboard.Backend.{Backend, plain_backend, dashboard_endpoint}

pub record RouteRegistry : Type 0 where
  pub services : GoMap Bytes DiscoveredService
  pub folder_groups : GoMap Bytes (List DiscoveredService)

-- `NewRouteRegistry`
abbrev pub new_route_registry : RouteRegistry
new_route_registry = record { services = []; folder_groups = [] }

abbrev pub Mappings : Type 0
Mappings = Option (Bytes → Option SubdomainMapping)

-- `r.folderGroups[name]`: a missing key reads as an empty slice.
abbrev pub group_of : GoMap Bytes (List DiscoveredService) → Bytes → List DiscoveredService
group_of groups name = elim (lookup name groups) [ none ↦ [] | some l ↦ l ]

unfoldable pub is_folder_group : RouteRegistry → Bytes → Bool
is_folder_group r name = leb 2 (length (group_of r.folder_groups name))

pub remove_by_source : RouteSource → GoMap Bytes DiscoveredService → GoMap Bytes DiscoveredService
remove_by_source source = keep_if (λ e. not (source_beq e.1.source source))

-- One round of the loop of `rebuildFolderGroups`.
unfoldable pub add_to_group :
    Heap
    → DiscoveredService
    → GoMap Bytes (List DiscoveredService)
    → GoMap Bytes (List DiscoveredService)
add_to_group h svc groups = elim svc.process [
  | none ↦ groups
  | some a ↦
      let folder = (h.process_at a).top_level_folder in
      if bytes_beq folder []
      then groups
      else put folder (group_of groups folder ++ (svc ∷ [])) groups
]

unfoldable pub group_all :
    Heap
    → List DiscoveredService
    → GoMap Bytes (List DiscoveredService)
    → GoMap Bytes (List DiscoveredService)
group_all h [] groups = groups
group_all h (svc ∷ services) groups = group_all h services (add_to_group h svc groups)

unfoldable pub rebuild_folder_groups : Heap → List DiscoveredService → RouteRegistry → RouteRegistry
rebuild_folder_groups h services r = record r { folder_groups = group_all h services [] }

unfoldable pub needs_mapping : RouteRegistry → Heap → DiscoveredService → Bool
unfolding is_folder_group
needs_mapping r h svc = elim svc.process [
  | none ↦ false
  | some a ↦
      let p = h.process_at a in
      if p.needs_custom_mapping
      then true
      else not (bytes_beq p.top_level_folder []) && is_folder_group r p.top_level_folder
]

-- The name before any mapping is looked up: the first part of `resolveSubdomain`.
unfoldable pub default_subdomain : Heap → DiscoveredService → Bytes
default_subdomain h svc = elim svc.process [
  | none ↦ svc.subdomain
  | some a ↦ elim svc.source [
    | from_process ↦ (h.process_at a).top_level_folder
    | from_well_known ↦ elim (lookup svc.endpoint.port well_known_ports) [
      | none ↦ svc.subdomain
      | some info ↦ info.subdomain
    ]
    | _ ↦ svc.subdomain
  ]
]

-- `mapping, err := r.store.GetMappingByCwd(…)`
abbrev pub find_mapping : Mappings → Bytes → Option SubdomainMapping
find_mapping none cwd = none
find_mapping (some by_cwd) cwd = by_cwd cwd

-- The last part of `resolveSubdomain`, at the process of a service that needs a mapping: the name,
-- and the object with the flags that it leaves.
pub map_process : Mappings → ProcessInfo → Bytes × ProcessInfo
map_process mappings p = elim (find_mapping mappings p.cwd) [
  | some m ↦ (
    m.subdomain ++ (codes "." ++ m.folder_group),
    record p { disabled = false; needs_custom_mapping = false },
  )
  | none ↦ (codes "pid-" ++ itoa p.pid, record p { disabled = true; needs_custom_mapping = true })
]

-- `resolveSubdomain` writes the flags of the shared process object.
unfoldable pub resolve_subdomain :
    RouteRegistry → Mappings → Heap → DiscoveredService → Bytes × Heap
unfolding needs_mapping default_subdomain map_process
resolve_subdomain r mappings h svc =
    if not (needs_mapping r h svc) then (default_subdomain h svc, h) else elim svc.process [
      | none ↦ (default_subdomain h svc, h)
      | some a ↦ let (name, p) = map_process mappings (h.process_at a) in (name, set_process h a p)
    ]

unfoldable pub priority : RouteSource → ℕ
priority from_process = 3
priority from_docker = 2
priority from_well_known = 1
priority (from_other _) = 0

-- `exists && r.priority(existing.Source) > r.priority(svc.Source)`
unfoldable pub is_outranked : Option DiscoveredService → DiscoveredService → Bool
unfolding priority
is_outranked none svc = false
is_outranked (some existing) svc = ltb (priority svc.source) (priority existing.source)

-- One round of the loop of `UpdateServices`.
pub register :
    Bytes → DiscoveredService → GoMap Bytes DiscoveredService → GoMap Bytes DiscoveredService
unfolding is_outranked
register name svc services =
    if is_outranked (lookup name services) svc
    then services
    else put name (record svc { subdomain = name }) services

pub register_all : RouteRegistry → Mappings → Heap → List DiscoveredService → RouteRegistry × Heap
register_all r mappings h [] = (r, h)
register_all r mappings h (svc ∷ rest) =
    let (name, h') = resolve_subdomain r mappings h svc in
    register_all (record r { services = register name svc r.services }) mappings h' rest

-- `UpdateServices` before its `notifyChange`.
unfoldable pub update_services :
    RouteRegistry → Mappings → Heap → RouteSource → List DiscoveredService → RouteRegistry × Heap
unfolding register_all register resolve_subdomain remove_by_source rebuild_folder_groups group_all
    add_to_group
update_services r mappings h source services =
    let cleared : RouteRegistry = record r { services = remove_by_source source r.services } in
    let grouped : RouteRegistry =
      if source_beq source from_process
      then rebuild_folder_groups h services cleared
      else cleared in
    register_all grouped mappings h services

-- `UpdateService` before its `notifyChange`; the flag says whether it notifies.
pub update_service : RouteRegistry → DiscoveredService → RouteRegistry × Bool
unfolding is_outranked
update_service r svc =
    if is_outranked (lookup svc.subdomain r.services) svc
    then (r, false)
    else (record r { services = put svc.subdomain svc r.services }, true)
