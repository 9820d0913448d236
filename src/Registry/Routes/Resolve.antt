-- ===== src/Registry/Routes/Resolve.antt =====
-- `resolveSubdomain`: the names it gives, and what it writes to the shared process objects.
use localproxy.Base.{
  ℕ, ◌≡◌, ◌≢◌, ap, Bytes, codes, [], ◌++◌, none, some, Bool, true, false, nat_beq_iff, itoa,
  itoa-injective, arith,
}
use localproxy.Discovery.Types.{from_process, ProcessInfo, DiscoveredService, Heap, set_process}
use localproxy.Registry.Mapping.{SubdomainMapping}
use localproxy.Registry.Routes.{
  RouteRegistry, Mappings, find_mapping, is_folder_group, needs_mapping, map_process,
  resolve_subdomain,
}

-- The fields of a process object that `resolveSubdomain` never writes.
abbrev pub identity : ProcessInfo → ℕ × Bytes × Bool × Bytes × Bytes
identity p = (p.pid, p.cwd, p.is_well_known, p.top_level_folder, p.relative_path)

resolve_subdomain-eq :
    (r : RouteRegistry) (mappings : Mappings) (h : Heap) (svc : DiscoveredService) (a : ℕ)
    → svc.process ≡ some a
    → needs_mapping r h svc ≡ true
    → let (name, p) = map_process mappings (h.process_at a) in
      resolve_subdomain r mappings h svc ≡ (name, set_process h a p)
unfolding resolve_subdomain
resolve_subdomain-eq r mappings h svc a e n = rw (n, e, resolve_subdomain)

-- A process that needs a mapping is named after the mapping of its directory and enabled, or named
-- after its process id and disabled where the store has none. Every other object of the heap, process
-- or container, is left alone, and of this one all but the two flags.
pub resolve_subdomain_mapped :
    (r : RouteRegistry) (mappings : Mappings) (h : Heap) (svc : DiscoveredService) (a : ℕ)
    → svc.process ≡ some a
    → needs_mapping r h svc ≡ true
    → let p = h.process_at a in
      let (name, h') = resolve_subdomain r mappings h svc in
      let found = find_mapping mappings p.cwd in
      (name ≡ elim found [
        | none ↦ codes "pid-" ++ itoa p.pid
        | some m ↦ m.subdomain ++ (codes "." ++ m.folder_group)
      ])
      × ((h'.process_at a).disabled ≡ elim found [ none ↦ true | some _ ↦ false ])
      × (identity (h'.process_at a) ≡ identity p)
      × ((b : ℕ) → b ≢ a → h'.process_at b ≡ h.process_at b)
      × (h'.docker_at ≡ h.docker_at)
unfolding map_process
resolve_subdomain_mapped r mappings h svc a e n =
    let eq = resolve_subdomain-eq r mappings h svc a e n in
    (
      ground (arith, eq),
      ground (arith, eq, nat_beq_iff a a),
      ground (arith, eq, nat_beq_iff a a),
      (λ b ne. ground (arith, eq, nat_beq_iff a b)),
      ap (λ res. res.1.docker_at) eq,
    )

-- Two processes that need a mapping and have none get different names if their ids differ.
resolve_subdomain_pids :
    (r : RouteRegistry) (mappings : Mappings) (h : Heap) (svc other : DiscoveredService) (a b : ℕ)
    → svc.process ≡ some a
    → other.process ≡ some b
    → needs_mapping r h svc ≡ true
    → needs_mapping r h other ≡ true
    → find_mapping mappings (h.process_at a).cwd ≡ none
    → find_mapping mappings (h.process_at b).cwd ≡ none
    → (h.process_at a).pid ≢ (h.process_at b).pid
    → (resolve_subdomain r mappings h svc).0 ≢ (resolve_subdomain r mappings h other).0
resolve_subdomain_pids r mappings h svc other a b ea eb na nb fa fb ne same = ground (
  arith,
  (resolve_subdomain_mapped r mappings h svc a ea na).0,
  (resolve_subdomain_mapped r mappings h other b eb nb).0,
  itoa-injective (h.process_at a).pid (h.process_at b).pid,
)

-- A mapped process outside the folder groups is named after its mapping once only: the first call
-- clears the flag on the shared object, and a second call gives the bare name of the folder.
pub resolve_subdomain_forgets :
    (r : RouteRegistry) (mappings : Mappings) (h : Heap) (svc : DiscoveredService) (a : ℕ)
    (m : SubdomainMapping)
    → svc.process ≡ some a
    → svc.source ≡ from_process
    → (h.process_at a).needs_custom_mapping ≡ true
    → is_folder_group r (h.process_at a).top_level_folder ≡ false
    → find_mapping mappings (h.process_at a).cwd ≡ some m
    → let (first, h') = resolve_subdomain r mappings h svc in
      (first ≡ m.subdomain ++ (codes "." ++ m.folder_group))
      × ((resolve_subdomain r mappings h' svc).0 ≡ (h.process_at a).top_level_folder)
unfolding resolve_subdomain
resolve_subdomain_forgets r mappings h svc a m e s n g f = ground (arith, nat_beq_iff a a)

-- A process in a folder group keeps its name at a second call.
resolve_subdomain_stable :
    (r : RouteRegistry) (mappings : Mappings) (h : Heap) (svc : DiscoveredService) (a : ℕ)
    → svc.process ≡ some a
    → (h.process_at a).top_level_folder ≢ []
    → is_folder_group r (h.process_at a).top_level_folder ≡ true
    → let (first, h') = resolve_subdomain r mappings h svc in
      (resolve_subdomain r mappings h' svc).0 ≡ first
unfolding resolve_subdomain
resolve_subdomain_stable r mappings h svc a e ne g = ground (arith, nat_beq_iff a a)
