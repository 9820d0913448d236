-- ===== src/Discovery/Process.antt =====
-- internal/discovery/process.go: which service a listening process is. The listening ports and the
-- working directory of a process come from the operating system: they are the arguments `listeners`
-- and `cwd_of`.
pub mod Path
pub mod Scan
mod Tests
use localproxy.Base.{
  ℕ, suc, ◌+◌, pos, Bytes, codes, List, [], ◌∷◌, ◌++◌, Option, none, some, Bool, true, false, not,
  ◌&&◌, ◌||◌, ltb, if◌then◌else◌, length, keep_if, bytes_beq, nat_eq,
}
use localproxy.Base.GoMap.{GoMap, lookup, put}
use localproxy.Base.Text.{has_prefix, split, join}
use localproxy.Base.Paths.{slash, rel}
use localproxy.Net.{AddrPort}
use localproxy.Discovery.Types.{
  from_process, from_well_known, DiscoveredService, ProcessInfo, ServiceInfo, Heap, set_process,
  Objects,
}
use localproxy.Discovery.WellKnown.{well_known_ports}

pub record Listener : Type 0 where
  pub endpoint : AddrPort
  pub pid : ℕ

-- `scanState`; `ignoredDirs` is the constant `is_ignored`.
pub record ScanState : Type 0 where
  pub used_ports : GoMap ℕ Bool
  pub seen_pid : GoMap ℕ Bool
  pub cwd_cache : GoMap ℕ Bytes

abbrev pub new_scan_state : ScanState
new_scan_state = record { used_ports = []; seen_pid = []; cwd_cache = [] }

pub record PathResult : Type 0 where
  pub needs_custom_mapping : Bool
  pub top_level_folder : Bytes
  pub relative_path : Bytes

abbrev pub no_result : PathResult
no_result = record { needs_custom_mapping = false; top_level_folder = []; relative_path = [] }

abbrev pub is_set : ℕ → GoMap ℕ Bool → Bool
is_set k m = elim (lookup k m) [ none ↦ false | some b ↦ b ]

-- A new object for the process.
abbrev pub new_process : ProcessInfo → Objects → Objects
new_process p o = record { heap = set_process o.heap o.next p; next = o.next + 1 }

-- A service with the fields that the two kinds share.
abbrev pub bare_service : AddrPort → ℕ → DiscoveredService
bare_service endpoint a = record {
  subdomain = [];
  endpoint = endpoint;
  tcp_port = pos 0;
  source = from_process;
  process = some a;
  docker = none;
  folder = none;
  service = none;
}

-- `tryWellKnown`
pub try_well_known :
    ℕ → AddrPort → ScanState → Objects → Option DiscoveredService × ScanState × Objects
try_well_known pid endpoint s o = elim (lookup endpoint.port well_known_ports) [
  | none ↦ (none, s, o)
  | some info ↦ if is_set endpoint.port s.used_ports then (none, s, o) else (
    some (record (bare_service endpoint o.next) {
      tcp_port = info.tcp_port;
      source = from_well_known;
      service = some (record { endpoint = endpoint; protocol = info.subdomain; version = [] });
    }),
    record s { used_ports = put endpoint.port true s.used_ports },
    new_process
        (record {
          pid = pid;
          cwd = [];
          disabled = false;
          needs_custom_mapping = false;
          is_well_known = true;
          top_level_folder = [];
          relative_path = [];
        })
        o,
  )
]

-- `tryListeningProcess`
pub try_listening_process :
    ℕ
    → AddrPort
    → PathResult
    → Bytes
    → ScanState
    → Objects
    → Option DiscoveredService × ScanState × Objects
try_listening_process pid endpoint result cwd s o =
    if is_set pid s.seen_pid then (none, s, o) else (
      some (bare_service endpoint o.next),
      record s {
        seen_pid = put pid true s.seen_pid;
        used_ports = put endpoint.port true s.used_ports;
      },
      new_process
          (record {
            pid = pid;
            cwd = cwd;
            disabled = result.needs_custom_mapping;
            needs_custom_mapping = result.needs_custom_mapping;
            is_well_known = false;
            top_level_folder = result.top_level_folder;
            relative_path = result.relative_path;
          })
          o,
    )

-- `ignoredDirs`
abbrev pub is_ignored : Bytes → Bool
is_ignored p = bytes_beq p (codes "apps") || bytes_beq p (codes "packages")

abbrev pub is_part : Bytes → Bool
is_part p = not (bytes_beq p []) && (not (bytes_beq p (codes ".")) && not (is_ignored p))

abbrev pub result_of : List Bytes → PathResult
result_of [] = no_result
result_of (top ∷ parts) = record {
  needs_custom_mapping = ltb 1 (length (top ∷ parts));
  top_level_folder = top;
  relative_path = join slash (top ∷ parts);
}

-- The part of `resolvePathInfo` after the split.
abbrev pub result_of_parts : List Bytes → PathResult
result_of_parts [] = no_result
result_of_parts (first ∷ parts) =
    if bytes_beq first [] || bytes_beq first (codes ".")
    then no_result
    else result_of (keep_if is_part (first ∷ parts))

-- `resolvePathInfo`. The paths are absolute, so that `filepath.Rel` has no error.
pub resolve_path_info : Bytes → Bytes → PathResult
resolve_path_info base cwd = result_of_parts (split slash (rel base cwd))

-- `getCwd`
pub get_cwd : (ℕ → Bytes) → ℕ → ScanState → Bytes × ScanState
get_cwd cwd_of pid s = elim (lookup pid s.cwd_cache) [
  | some cwd ↦ (cwd, s)
  | none ↦ (cwd_of pid, record s { cwd_cache = put pid (cwd_of pid) s.cwd_cache })
]

pub find_matching_base_path : List Bytes → Bytes → Bytes
find_matching_base_path [] cwd = []
find_matching_base_path (base ∷ bases) cwd =
    if has_prefix cwd base then base else find_matching_base_path bases cwd

-- `classifyListener`
pub classify_listener :
    List Bytes
    → (ℕ → Bytes)
    → Listener
    → ScanState
    → Objects
    → Option DiscoveredService × ScanState × Objects
unfolding try_well_known try_listening_process get_cwd
classify_listener bases cwd_of entry s o =
    let (cwd, s') = get_cwd cwd_of entry.pid s in
    let base = find_matching_base_path bases cwd in
    let result = resolve_path_info base cwd in
    if bytes_beq cwd [] || bytes_beq base []
    then try_well_known entry.pid entry.endpoint s' o
    else if bytes_beq result.top_level_folder []
    then (none, s', o)
    else try_listening_process entry.pid entry.endpoint result cwd s' o

abbrev pub append_found : Option DiscoveredService → List DiscoveredService → List DiscoveredService
append_found none results = results
append_found (some svc) results = svc ∷ results

-- The loop of `scan`.
pub scan_listeners :
    List Bytes
    → (ℕ → Bytes)
    → List Listener
    → ScanState
    → Objects
    → List DiscoveredService × ScanState × Objects
scan_listeners bases cwd_of [] s o = ([], s, o)
scan_listeners bases cwd_of (entry ∷ listeners) s o =
    let (found, s', o') = classify_listener bases cwd_of entry s o in
    let (results, s'', o'') = scan_listeners bases cwd_of listeners s' o' in
    (append_found found results, s'', o'')

-- `scan`, where `getListeningPorts` has no error.
pub scan : List Bytes → (ℕ → Bytes) → List Listener → Objects → List DiscoveredService × Objects
scan bases cwd_of listeners o =
    let (results, s, o') = scan_listeners bases cwd_of listeners new_scan_state o in (results, o')
