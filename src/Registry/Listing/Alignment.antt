-- ===== src/Registry/Listing/Alignment.antt =====
-- The routes and the backends that are handed out stand side by side.
use localproxy.Base.{
  ◌≡◌, refl, ap, ap₂, ◌∙◌, ℤ, pos, List, [], ◌∷◌, ◌++◌, map, Bytes, bytes_beq_iff, bytes_eq, Bool,
  true, false, Bool-cases, inl, inr, some, length, leb, keep_if, arith,
}
use localproxy.Base.GoMap.{GoMap, lookup, HasUniqueKeys}
use localproxy.Net.{AddrPort}
use localproxy.Discovery.Types.{DiscoveredService, Heap}
use localproxy.Proxy.Route.{Route}
use localproxy.Dashboard.Backend.{Backend, dashboard_endpoint}
use localproxy.Registry.Routes.{RouteRegistry, is_folder_group}
use localproxy.Registry.Listing.{
  list_service, group_names, list_groups, list_services, get_rows, get_routes_locked,
}

-- The second component carries the first as its route.
abbrev IsAligned : List (Route × Backend) → Type 0
IsAligned [] = Unit {0}
IsAligned ((route, backend) ∷ rows) = (backend.route ≡ route) × IsAligned rows

list_service-IsAligned :
    (r : RouteRegistry) (h : Heap) (svc : DiscoveredService)
    → (list_service r h svc).1.route ≡ (list_service r h svc).0
unfolding list_service
list_service-IsAligned r h svc = ground arith

list_services-IsAligned :
    (r : RouteRegistry) (h : Heap) (services : GoMap Bytes DiscoveredService)
    → IsAligned (list_services r h services)
unfolding list_services
list_services-IsAligned r h [] = tt
list_services-IsAligned r h ((key, svc) ∷ services) =
    (list_service-IsAligned r h svc, list_services-IsAligned r h services)

list_groups-IsAligned :
    (names : List Bytes) (rows : List (Route × Backend))
    → IsAligned rows
    → IsAligned (list_groups names ++ rows)
unfolding list_groups
list_groups-IsAligned [] rows v = v
list_groups-IsAligned (name ∷ names) rows v = (refl, list_groups-IsAligned names rows v)

IsAligned-map :
    (rows : List (Route × Backend))
    → IsAligned rows
    → map (λ b. b.route) (map (λ (e : Route × Backend). e.1) rows) ≡ map (λ e. e.0) rows
IsAligned-map [] v = refl
IsAligned-map (row ∷ rows) v = ap₂ ◌∷◌ v.0 (IsAligned-map rows v.1)

-- What a route is for: its name, where it sends, its TCP port, and its wildcard.
abbrev pub purpose : Route → Bytes × AddrPort × ℤ × Bool
purpose route = (route.subdomain, route.endpoint, route.tcp_port, route.has_wildcard)

abbrev pub dashboard_purpose : Bytes → Bool → Bytes × AddrPort × ℤ × Bool
dashboard_purpose name wildcard = (name, dashboard_endpoint, pos 0, wildcard)

abbrev pub service_purpose : Bytes × DiscoveredService → Bytes × AddrPort × ℤ × Bool
service_purpose e = (e.1.subdomain, e.1.endpoint, e.1.tcp_port, false)

purpose-list_service :
    (r : RouteRegistry) (h : Heap) (svc : DiscoveredService)
    → purpose (list_service r h svc).0 ≡ (svc.subdomain, svc.endpoint, svc.tcp_port, false)
unfolding list_service
purpose-list_service r h svc = ground arith

purpose-list_services :
    (r : RouteRegistry) (h : Heap) (services : GoMap Bytes DiscoveredService)
    → map (λ row. purpose row.0) (list_services r h services) ≡ map service_purpose services
unfolding list_services
purpose-list_services r h [] = refl
purpose-list_services r h ((key, svc) ∷ services) =
    ap₂ ◌∷◌ (purpose-list_service r h svc) (purpose-list_services r h services)

purpose-list_groups :
    (names : List Bytes) (rows : List (Route × Backend))
    → map (λ row. purpose row.0) (list_groups names ++ rows)
      ≡ map (λ name. dashboard_purpose name true) names ++ map (λ row. purpose row.0) rows
unfolding list_groups
purpose-list_groups [] rows = refl
purpose-list_groups (name ∷ names) rows =
    ap (λ l. dashboard_purpose name true ∷ l) (purpose-list_groups names rows)

-- The names under which two services or more are filed.
abbrev pub shared_names : GoMap Bytes (List DiscoveredService) → List Bytes
shared_names groups = map (λ e. e.0) (keep_if (λ e. leb 2 (length e.1)) groups)

-- In a map without a key twice, the entry of a key is what the map gives for it.
group_names-shared :
    (r : RouteRegistry) (groups : GoMap Bytes (List DiscoveredService))
    → ((name : Bytes) (l : List DiscoveredService)
        → lookup name groups ≡ some l
        → lookup name r.folder_groups ≡ some l)
    → HasUniqueKeys groups
    → group_names r groups ≡ shared_names groups
unfolding group_names is_folder_group
group_names-shared r [] same unique = refl
group_names-shared r ((name, l) ∷ groups) same unique =
    let own : lookup name r.folder_groups ≡ some l =
      same name l (ground (arith, bytes_beq_iff name name)) in
    let rest =
      group_names-shared r groups
        (λ n k e. same n k (ground (arith, e, unique.0, bytes_beq_iff name n))) unique.1 in
    elim (Bool-cases (leb 2 (length l))) [
      | inl shared ↦ ground (arith, own, shared, rest)
      | inr alone ↦ ground (arith, own, alone, rest)
    ]

get_rows-IsAligned : (r : RouteRegistry) (h : Heap) → IsAligned (get_rows r h)
unfolding get_rows
get_rows-IsAligned r h = (
  refl,
  list_groups-IsAligned (group_names r r.folder_groups) (list_services r h r.services)
      (list_services-IsAligned r h r.services),
)

map-purpose :
    (rows : List (Route × Backend))
    → map purpose (map (λ row. row.0) rows) ≡ map (λ row. purpose row.0) rows
map-purpose [] = refl
map-purpose (row ∷ rows) = ap (λ l. purpose row.0 ∷ l) (map-purpose rows)

-- The backend at each position carries the route at that position. The routes are one to the dashboard;
-- one to the dashboard, with a wildcard, for every folder with two services or more; and one for every
-- registered service, with its name, endpoint and TCP port; in the order of the maps, of which that of the
-- folders has no key twice.
pub get_routes_aligned :
    (r : RouteRegistry) (h : Heap)
    → HasUniqueKeys r.folder_groups
    → let (routes, backends) = get_routes_locked r h in
      (map (λ b. b.route) backends ≡ routes)
      × (map purpose routes
          ≡ dashboard_purpose [] false
            ∷ (map (λ name. dashboard_purpose name true) (shared_names r.folder_groups)
                ++ map service_purpose r.services))
unfolding get_routes_locked get_rows
get_routes_aligned r h unique = (
  IsAligned-map (get_rows r h) (get_rows-IsAligned r h),
  map-purpose (get_rows r h)
      ∙ ap (λ l. dashboard_purpose [] false ∷ l)
          (purpose-list_groups (group_names r r.folder_groups) (list_services r h r.services)
            ∙ ap₂ (λ names l. map (λ name. dashboard_purpose name true) names ++ l)
                (group_names-shared r r.folder_groups (λ name l e. e) unique)
                (purpose-list_services r h r.services)),
)
