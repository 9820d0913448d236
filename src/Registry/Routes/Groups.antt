-- ===== src/Registry/Routes/Groups.antt =====
-- `rebuildFolderGroups`: which services stand in which group.
use localproxy.Base.{
  ◌≡◌, ◌≢◌, refl, sym, ap, Bytes, List, [], ◌∷◌, ◌++◌, append_assoc, append-nil, none, some, Bool,
  false, if◌then◌else◌, bytes_beq, bytes_beq_iff, bytes_eq, keep_if, length, arith, leb,
  Option-cases, inl, inr,
}
use localproxy.Base.GoMap.{GoMap, put, lookup-put, HasUniqueKeys, HasUniqueKeys-put}
use localproxy.Discovery.Types.{DiscoveredService, Heap}
use localproxy.Registry.Routes.{
  RouteRegistry, group_of, is_folder_group, add_to_group, group_all, rebuild_folder_groups,
}

-- A service of a process whose top-level folder is this one.
abbrev pub is_in_folder : Heap → Bytes → DiscoveredService → Bool
is_in_folder h folder svc = elim svc.process [
  | none ↦ false
  | some a ↦ bytes_beq (h.process_at a).top_level_folder folder
]

group_of-add_to_group :
    (h : Heap) (svc : DiscoveredService) (groups : GoMap Bytes (List DiscoveredService))
    (folder : Bytes)
    → folder ≢ []
    → group_of (add_to_group h svc groups) folder ≡ (
        if is_in_folder h folder svc
        then group_of groups folder ++ (svc ∷ [])
        else group_of groups folder)
unfolding add_to_group
group_of-add_to_group h svc groups folder ne = elim (Option-cases svc.process) [
  | inl e ↦ ground arith
  | inr (a, e) ↦
      let own = (h.process_at a).top_level_folder in
      ground (
        arith,
        bytes_beq_iff own [],
        bytes_beq_iff own folder,
        lookup-put own folder (group_of groups own ++ (svc ∷ [])) groups,
      )
]

group_of-group_all :
    (h : Heap) (services : List DiscoveredService) (groups : GoMap Bytes (List DiscoveredService))
    (folder : Bytes)
    → folder ≢ []
    → group_of (group_all h services groups) folder
      ≡ group_of groups folder ++ keep_if (is_in_folder h folder) services
unfolding group_all
group_of-group_all h [] groups folder ne = sym (append-nil (group_of groups folder))
group_of-group_all h (svc ∷ services) groups folder ne = ground (
  arith,
  group_of-add_to_group h svc groups folder,
  group_of-group_all h services (add_to_group h svc groups) folder,
  append_assoc (group_of groups folder) (svc ∷ []) (keep_if (is_in_folder h folder) services),
)

group_of-group_all_nil :
    (h : Heap) (services : List DiscoveredService) (groups : GoMap Bytes (List DiscoveredService))
    → group_of groups [] ≡ []
    → group_of (group_all h services groups) [] ≡ []
unfolding group_all add_to_group
group_of-group_all_nil h [] groups e = e
group_of-group_all_nil h (svc ∷ services) groups e = elim (Option-cases svc.process) [
  | inl none_here ↦ ground (arith, group_of-group_all_nil h services groups)
  | inr (a, f) ↦
      let own = (h.process_at a).top_level_folder in
      let grown = put own (group_of groups own ++ (svc ∷ [])) groups in
      ground (
        arith,
        bytes_beq_iff own [],
        lookup-put own [] (group_of groups own ++ (svc ∷ [])) groups,
        group_of-group_all_nil h services groups,
        group_of-group_all_nil h services grown,
      )
]

-- After a rebuild the group of a folder holds the listed services whose process has that top-level
-- folder, in the order of the list, whatever the groups were before; the empty name has no group; and
-- a folder counts as a group exactly when two services or more stand in it.
pub rebuild_folder_groups_lem :
    (h : Heap) (services : List DiscoveredService) (r : RouteRegistry) (folder : Bytes)
    → let r' = rebuild_folder_groups h services r in
      let members = if bytes_beq folder [] then [] else keep_if (is_in_folder h folder) services in
      (group_of r'.folder_groups folder ≡ members)
      × (is_folder_group r' folder ≡ leb 2 (length members))
      × (r'.services ≡ r.services)
unfolding rebuild_folder_groups is_folder_group
rebuild_folder_groups_lem h services r folder =
    let members = if bytes_beq folder [] then [] else keep_if (is_in_folder h folder) services in
    let eq : group_of (group_all h services []) folder ≡ members = ground (
      arith,
      bytes_beq_iff folder [],
      group_of-group_all h services [] folder,
      group_of-group_all_nil h services [],
    ) in
    (eq, ap (λ l. leb 2 (length l)) eq, refl)

unique-add_to_group :
    (h : Heap) (svc : DiscoveredService) (groups : GoMap Bytes (List DiscoveredService))
    → HasUniqueKeys groups
    → HasUniqueKeys (add_to_group h svc groups)
unfolding add_to_group
unique-add_to_group h svc groups u = elim (Option-cases svc.process) [
  | inl e ↦ ground arith
  | inr (a, e) ↦
      let own = (h.process_at a).top_level_folder in
      ground (arith, HasUniqueKeys-put own (group_of groups own ++ (svc ∷ [])) groups u)
]

unique_from :
    (h : Heap) (services : List DiscoveredService) (groups : GoMap Bytes (List DiscoveredService))
    → HasUniqueKeys groups
    → HasUniqueKeys (group_all h services groups)
unfolding group_all
unique_from h [] groups u = u
unique_from h (svc ∷ services) groups u =
    unique_from h services (add_to_group h svc groups) (unique-add_to_group h svc groups u)

-- After a rebuild each folder has one entry.
pub unique-group_all :
    (h : Heap) (services : List DiscoveredService) (r : RouteRegistry)
    → HasUniqueKeys (rebuild_folder_groups h services r).folder_groups
unfolding rebuild_folder_groups
unique-group_all h services r = unique_from h services [] tt
