-- ===== src/Registry/Listing/FolderGroups.antt =====
-- `GetFolderGroups` after the groups are rebuilt.
use localproxy.Base.{
  ◌≡◌, Bytes, List, [], none, some, false, if◌then◌else◌, bytes_beq, bytes_eq, keep_if, length, leb,
  arith,
}
use localproxy.Base.GoMap.{GoMap, lookup, lookup-keep_if}
use localproxy.Discovery.Types.{DiscoveredService, Heap}
use localproxy.Registry.Routes.{RouteRegistry, group_of, is_folder_group, rebuild_folder_groups}
use localproxy.Registry.Routes.Groups.{is_in_folder, rebuild_folder_groups_lem, unique-group_all}
use localproxy.Registry.Listing.{get_folder_groups}

-- After a rebuild `GetFolderGroups` shows a folder exactly when it is not the empty name and two
-- services or more have it as their top-level folder; it shows these services, in their order.
get_folder_groups_lem :
    (h : Heap) (services : List DiscoveredService) (r : RouteRegistry) (folder : Bytes)
    → let members = if bytes_beq folder [] then [] else keep_if (is_in_folder h folder) services in
      lookup folder (get_folder_groups (rebuild_folder_groups h services r))
      ≡ (if leb 2 (length members) then some members else none)
unfolding get_folder_groups
get_folder_groups_lem h services r folder =
    let r' = rebuild_folder_groups h services r in
    let members = rebuild_folder_groups_lem h services r folder in
    ground (
      arith,
      lookup-keep_if (λ e. is_folder_group r' e.0) folder r'.folder_groups
          (unique-group_all h services r),
      members,
      leb_lookup r'.folder_groups folder,
    )
  where
    leb_lookup :
        (groups : GoMap Bytes (List DiscoveredService)) (name : Bytes)
        → lookup name groups ≡ none
        → leb 2 (length (group_of groups name)) ≡ false
    leb_lookup groups name e = ground arith
