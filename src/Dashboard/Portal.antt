-- ===== src/Dashboard/Portal.antt =====
-- internal/dashboard/server.go: which page a host gets, and the captive portal of a folder group.
pub mod Folder
mod Tests
use localproxy.Base.{
  ℕ, Bytes, codes, List, [], ◌∷◌, Option, none, some, Bool, true, false, not, ◌||◌, if◌then◌else◌,
  bytes_beq, bytes_eq, is_some, itoa, ◌++◌,
}
use localproxy.Base.GoMap.{GoMap, lookup}
use localproxy.Base.Text.{has_suffix, trim_suffix, split, last_or}
use localproxy.Discovery.Types.{DiscoveredService, Heap}
use localproxy.Dashboard.Http.{Response, http_error, written}
use localproxy.Registry.Store.{Result, ok, err}

-- What `GetFolderGroups` returns; `none` in place of a registry.
abbrev pub Groups : Type 0
Groups = GoMap Bytes (List DiscoveredService)

abbrev pub first_or : Bytes → List Bytes → Bytes
first_or d [] = d
first_or d (x ∷ xs) = x

-- `folderName`
pub folder_name : Bytes → Bytes
folder_name host =
    if has_suffix (codes ".localhost") host
    then last_or [] (split b'.' (trim_suffix (codes ".localhost") host))
    else if has_suffix (codes ".internal") host
    then last_or [] (split b'.' (trim_suffix (codes ".internal") host))
    else []

-- `detectFolderGroup`
pub detect_folder_group : Option Groups → Bytes → Bytes
unfolding folder_name
detect_folder_group none host = []
detect_folder_group (some groups) host =
    let folder = folder_name (first_or [] (split b':' host)) in
    if bytes_beq folder [] then [] else if is_some (lookup folder groups) then folder else []

-- The page that `handleRoot` serves.
pub data Root : Type 0 where
  overview : Root
  portal : Bytes → Root
  unknown_host : Bytes → Root

abbrev pub is_own_host : Bytes → Bool
is_own_host host =
    bytes_beq host (codes "localhost")
    || (bytes_beq host (codes "internal")
        || (bytes_beq host (codes "127.0.0.1:13279") || bytes_beq host (codes "localhost:13279")))

-- `handleRoot`, with the host and the header X-Forwarded-Host.
pub handle_root : Option Groups → Bytes → Bytes → Root
unfolding detect_folder_group
handle_root groups host forwarded =
    let host = if bytes_beq forwarded [] then host else forwarded in
    if is_own_host host
    then overview
    else let folder = detect_folder_group groups host in
      if bytes_beq folder [] then unknown_host host else portal folder

pub record FolderGroupService : Type 0 where
  pub pid : ℕ
  pub port : ℕ
  pub cwd : Bytes
  pub relative_path : Bytes
  pub subdomain : Bytes
  pub is_mapped : Bool

-- One service with a process.
abbrev pub group_service : GoMap Bytes Bytes → Heap → DiscoveredService → ℕ → FolderGroupService
group_service mapping_by_cwd h svc a =
    let p = h.process_at a in
    let mapped = lookup p.cwd mapping_by_cwd in
    record {
      pid = p.pid;
      port = svc.endpoint.port;
      cwd = p.cwd;
      relative_path = p.relative_path;
      subdomain = elim mapped [ none ↦ [] | some name ↦ name ];
      is_mapped = is_some mapped;
    }

-- The loop over the services.
pub folder_services : GoMap Bytes Bytes → Heap → List DiscoveredService → List FolderGroupService
folder_services mapping_by_cwd h [] = []
folder_services mapping_by_cwd h (svc ∷ services) =
    let rest = folder_services mapping_by_cwd h services in
    elim svc.process [ none ↦ rest | some a ↦ group_service mapping_by_cwd h svc a ∷ rest ]

-- The page of `serveCaptivePortal`, where it can be rendered.
pub record PortalPage : Type 0 where
  pub folder : Bytes
  pub services : List FolderGroupService

-- `serveCaptivePortal`; what `GetMappingSubdomainsByCwd` returns, `none` in place of a store. The
-- page of `serve404` is an error 404 here.
pub serve_captive_portal :
    Groups → Option (Result (GoMap Bytes Bytes)) → Heap → Bytes → Bytes → Response PortalPage
unfolding folder_services
serve_captive_portal groups mappings h path folder =
    if not (bytes_beq path (codes "/"))
    then http_error 404 (codes "404 page not found")
    else elim (lookup folder groups) [
      | none ↦ http_error 404 (codes "not found")
      | some services ↦
          let mapping_by_cwd : GoMap Bytes Bytes = elim mappings [
            | none ↦ []
            | some r ↦ elim r [ err _ ↦ [] | ok m ↦ m ]
          ] in
          written (record { folder = folder; services = folder_services mapping_by_cwd h services })
    ]
