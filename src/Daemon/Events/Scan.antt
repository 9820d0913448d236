-- ===== src/Daemon/Events/Scan.antt =====
-- The two updates of `onProcessesChanged`, one after the other.
use localproxy.Base.{
  ◌≡◌, ◌≢◌, sym, ap, ◌∙◌, Bytes, List, [], ◌∷◌, Option, none, some, bytes_eq, arith,
}
use localproxy.Base.GoMap.{lookup}
use localproxy.Discovery.Types.{
  RouteSource, from_process, from_docker, from_well_known, source_beq_iff, DiscoveredService, Heap,
}
use localproxy.Registry.Routes.{RouteRegistry, Mappings, priority, is_outranked, update_services}
use localproxy.Registry.Routes.Update.{
  AllFrom, resolve_all, last_named, last_named-source, holder, kept, regrouped, IsValid,
  update_services_lem,
}
use localproxy.Registry.Routes.Valid.{update_services-IsValid}
use localproxy.Daemon.Events.{filter_by_source, scan_processes}

AllFrom-filter_by_source :
    (source : RouteSource) (services : List DiscoveredService)
    → AllFrom source (filter_by_source services source)
AllFrom-filter_by_source source [] = tt
AllFrom-filter_by_source source (s ∷ services) =
    ground (arith, source_beq_iff s.source source, AllFrom-filter_by_source source services)

-- The processes of a scan, with their names.
abbrev pub named_processes :
    RouteRegistry → Mappings → Heap → List DiscoveredService → List (Bytes × DiscoveredService)
named_processes r mappings h services =
    let owned = filter_by_source services from_process in
    resolve_all (regrouped r h from_process owned) mappings h owned

-- What the second update makes of a name.
second :
    (r : RouteRegistry) (mappings : Mappings) (h : Heap) (services : List DiscoveredService)
    (k : Bytes)
    → IsValid r
    → let owned = filter_by_source services from_process in
      let known = filter_by_source services from_well_known in
      let (r', h') = update_services r mappings h from_process owned in
      let found =
        last_named k (resolve_all (regrouped r' h' from_well_known known) mappings h' known) in
      lookup k (scan_processes mappings h services r).0.services
      ≡ holder k
          (kept from_well_known (
            holder k
              (kept from_process (lookup k r.services))
              (last_named k (named_processes r mappings h services))))
          found
unfolding scan_processes
second r mappings h services k v =
    let owned = filter_by_source services from_process in
    let known = filter_by_source services from_well_known in
    let (r', h') = update_services r mappings h from_process owned in
    let valid = update_services-IsValid r mappings h from_process owned v in
    let first =
      (update_services_lem r mappings h from_process owned v
          (AllFrom-filter_by_source from_process services)).0
        k in
    (update_services_lem r' mappings h' from_well_known known valid
        (AllFrom-filter_by_source from_well_known services)).0
      k
    ∙ ap
        (λ o.
          holder k (kept from_well_known o)
            (last_named k (resolve_all (regrouped r' h' from_well_known known) mappings h' known)))
        first

-- A process outranks everything, and nothing found for a well-known port takes its name.
holder-process :
    (k : Bytes) (old found : Option DiscoveredService) (p : DiscoveredService)
    → p.source ≡ from_process
    → ((s : DiscoveredService) → found ≡ some s → s.source ≡ from_well_known)
    → holder k (kept from_well_known (holder k old (some p))) found
      ≡ some (record p { subdomain = k })
unfolding is_outranked priority
holder-process k none none p a b = ground arith
holder-process k none (some s) p a b = ground (arith, b s)
holder-process k (some o) none p a b = ground arith
holder-process k (some o) (some s) p a b = ground (arith, b s)

-- What a name may hold that no process of the scan has.
holder-other :
    (k : Bytes) (old found : Option DiscoveredService) (s : DiscoveredService)
    → ((t : DiscoveredService) → found ≡ some t → t.source ≡ from_well_known)
    → holder k (kept from_well_known (kept from_process old)) found ≡ some s
    → s.source ≢ from_process
holder-other k none none s b e = ground arith
holder-other k none (some t) s b e = ground (arith, b t)
holder-other k (some o) none s b e =
    ground (arith, source_beq_iff o.source from_process, source_beq_iff o.source from_well_known)
holder-other k (some o) (some t) s b e = ground (arith, b t, source_beq_iff o.source from_process)

holder-docker :
    (k : Bytes) (found : Option DiscoveredService) (s : DiscoveredService)
    → ((t : DiscoveredService) → found ≡ some t → t.source ≡ from_well_known)
    → s.source ≡ from_docker
    → holder k (kept from_well_known (kept from_process (some s))) found ≡ some s
unfolding is_outranked priority
holder-docker k none s b d = ground arith
holder-docker k (some t) s b d = ground (arith, b t)

-- After `onProcessesChanged` has updated a valid registry: a name that some process of the scan resolves
-- to belongs to the last such process, whatever held it and whatever was found for a well-known port;
-- no other name is held by a process; and a container keeps its name unless a process resolves to it.
pub scan_processes_lem :
    (r : RouteRegistry) (mappings : Mappings) (h : Heap) (services : List DiscoveredService)
    (k : Bytes) (s : DiscoveredService)
    → IsValid r
    → let named = last_named k (named_processes r mappings h services) in
      let now = lookup k (scan_processes mappings h services r).0.services in
      (named ≡ some s → now ≡ some (record s { subdomain = k }))
      × (named ≡ none → now ≡ some s → s.source ≢ from_process)
      × (named ≡ none → lookup k r.services ≡ some s → s.source ≡ from_docker → now ≡ some s)
scan_processes_lem r mappings h services k s v =
    let owned = filter_by_source services from_process in
    let known = filter_by_source services from_well_known in
    let (r', h') = update_services r mappings h from_process owned in
    let g = regrouped r' h' from_well_known known in
    let found = last_named k (resolve_all g mappings h' known) in
    let eq = second r mappings h services k v in
    let well_known : (t : DiscoveredService) → found ≡ some t → t.source ≡ from_well_known = λ t e.
      last_named-source from_well_known g mappings h' known k t
        (AllFrom-filter_by_source from_well_known services) e in
    let old = kept from_process (lookup k r.services) in
    let with : Option DiscoveredService → Option DiscoveredService =
      λ n. holder k (kept from_well_known (holder k old n)) found in
    (
      (λ e.
          let own =
            last_named-source from_process (regrouped r h from_process owned) mappings h owned k s
              (AllFrom-filter_by_source from_process services) e in
          eq ∙ ap with e ∙ holder-process k old found s own well_known),
      (λ e now.
          holder-other k (lookup k r.services) found s well_known (sym (eq ∙ ap with e) ∙ now)),
      (λ e before docker.
          eq
          ∙ ap with e
          ∙ ap (λ o. holder k (kept from_well_known (kept from_process o)) found) before
          ∙ holder-docker k found s well_known docker),
    )
