-- ===== src/Registry/Routes/Valid.antt =====
-- `UpdateServices` and `UpdateService` keep the registry well formed.
use localproxy.Base.{
  sym, subst, Bytes, List, [], ◌∷◌, Bool, not, bytes_beq_iff, bytes_eq, Bool-cases, inl, inr, arith,
}
use localproxy.Base.GoMap.{
  lookup, put, lookup-put, HasUniqueKeys-put, HasUniqueKeys-keep_if, lookup-keep_if,
}
use localproxy.Discovery.Types.{RouteSource, source_beq, DiscoveredService, Heap}
use localproxy.Registry.Routes.{
  RouteRegistry, Mappings, resolve_subdomain, remove_by_source, is_outranked, register,
  register_all, update_services, update_service,
}
use localproxy.Registry.Routes.Update.{IsValid, regrouped, with_services, update_services-eq}

IsKeyed-register :
    (name : Bytes) (svc : DiscoveredService) (r : RouteRegistry)
    → IsValid r
    → IsValid (with_services r (register name svc r.services))
unfolding register
IsKeyed-register name svc r v = record {
  unique = ground (
    arith,
    v.unique,
    HasUniqueKeys-put name (record svc { subdomain = name }) r.services v.unique,
  );
  keyed = λ k s e. ground (
    arith,
    v.keyed k s,
    lookup-put name k (record svc { subdomain = name }) r.services,
    bytes_beq_iff name k,
  );
}

register_all-IsValid :
    (r : RouteRegistry) (mappings : Mappings) (h : Heap) (services : List DiscoveredService)
    → IsValid r
    → IsValid (register_all r mappings h services).0
unfolding register_all
register_all-IsValid r mappings h [] v = v
register_all-IsValid r mappings h (svc ∷ services) v =
    let (name, h') = resolve_subdomain r mappings h svc in
    register_all-IsValid (with_services r (register name svc r.services)) mappings h' services
      (IsKeyed-register name svc r v)

cleared-IsValid :
    (r g : RouteRegistry) (source : RouteSource)
    → IsValid r
    → IsValid (with_services g (remove_by_source source r.services))
unfolding remove_by_source
cleared-IsValid r g source v =
    let keep : Bytes × DiscoveredService → Bool = λ e. not (source_beq e.1.source source) in
    record {
      unique = HasUniqueKeys-keep_if keep r.services v.unique;
      keyed = λ k s e. ground (arith, v.keyed k s, lookup-keep_if keep k r.services v.unique);
    }

update_service-IsValid :
    (r : RouteRegistry) (svc : DiscoveredService) → IsValid r → IsValid (update_service r svc).0
unfolding update_service
update_service-IsValid r svc v =
    let m = put svc.subdomain svc r.services in
    let stored : IsValid (with_services r m) = record {
      unique = HasUniqueKeys-put svc.subdomain svc r.services v.unique;
      keyed = λ k s e. ground (
        arith,
        v.keyed k s,
        lookup-put svc.subdomain k svc r.services,
        bytes_beq_iff svc.subdomain k,
      );
    } in
    elim (Bool-cases (is_outranked (lookup svc.subdomain r.services) svc)) [
      | inl old ↦ rw old v
      | inr new ↦ rw new stored
    ]

pub update_services-IsValid :
    (r : RouteRegistry) (mappings : Mappings) (h : Heap) (source : RouteSource)
    (services : List DiscoveredService)
    → IsValid r
    → IsValid (update_services r mappings h source services).0
update_services-IsValid r mappings h source services v =
    let g = regrouped r h source services in
    let m = remove_by_source source r.services in
    subst (λ u. IsValid u.0) (sym (update_services-eq r mappings h source services))
      (register_all-IsValid (with_services g m) mappings h services (cleared-IsValid r g source v))

-- Both updates keep one entry for each name and every service under its own name.
pub updates-IsValid :
    (r : RouteRegistry) (mappings : Mappings) (h : Heap) (source : RouteSource)
    (services : List DiscoveredService) (svc : DiscoveredService)
    → IsValid r
    → IsValid (update_services r mappings h source services).0 × IsValid (update_service r svc).0
updates-IsValid r mappings h source services svc v =
    (update_services-IsValid r mappings h source services v, update_service-IsValid r svc v)
