-- ===== src/Dashboard/Overview.antt =====
-- internal/dashboard/server.go: what `serveDashboard` puts on the page. `range` visits the backends in the
-- order of their list.
pub mod Groups
pub mod Page
pub mod Shown
mod Tests
use localproxy.Base.{
  ℕ, zero, suc, ◌+◌, Bytes, codes, List, [], ◌∷◌, ◌++◌, map, Option, none, some, Bool, true, false,
  not, ◌&&◌, ◌||◌, if◌then◌else◌, ltb, nat_beq, bytes_beq, bytes_eq, keep_if, itoa, is_some,
}
use localproxy.Base.GoMap.{GoMap, lookup, put}
use localproxy.Base.Sorting.{sort_by}
use localproxy.Base.Text.{strip_prefix, trim_prefix}
use localproxy.Net.{AddrPort}
use localproxy.Discovery.Types.{
  from_process, from_docker, from_well_known, source_beq, DockerListener,
}
use localproxy.Discovery.WellKnown.{WellKnownPortInfo, well_known_ports}
use localproxy.Dashboard.Backend.{Backend}
use localproxy.Dashboard.Http.{Response, http_error, written}
use localproxy.Dashboard.LogManager.{
  LogManager, World, get_buffer, docker_key, pid_key, is_container,
}

pub record BackendWithLogs : Type 0 where
  pub backend : Backend
  pub recent_logs : List Bytes
  pub display_path : Bytes

pub record ProcessGroup : Type 0 where
  pub cwd : Bytes
  pub display_cwd : Bytes
  pub backends : List BackendWithLogs

-- `UpdateBackends`: the map of the backends, from an empty one.
pub by_subdomain : List Backend → GoMap Bytes Backend → GoMap Bytes Backend
by_subdomain [] backends = backends
by_subdomain (b ∷ bs) backends = by_subdomain bs (put b.subdomain b backends)

-- `trimBasePath`
pub trim_base_path : Bytes → List Bytes → Bytes
trim_base_path cwd [] = cwd
trim_base_path cwd (base ∷ bases) = elim (strip_prefix cwd base) [
  | none ↦ trim_base_path cwd bases
  | some trimmed ↦ trim_prefix trimmed (codes "/")
]

-- The text up to the first slash.
abbrev pub first_element : Bytes → Bytes
first_element [] = []
first_element (c ∷ s) = let rest = first_element s in if nat_beq c b'/' then [] else c ∷ rest

-- `GetBuffer(key).GetLines()`
unfoldable pub lines_of : Bytes → LogManager → World → List Bytes × LogManager × World
lines_of key lm w = let (a, lm', w') = get_buffer key lm w in ((w'.logs a).lines, lm', w')

-- The log of one backend, where it has one.
unfoldable pub recent_lines : Backend → LogManager → World → List Bytes × LogManager × World
unfolding lines_of
recent_lines b lm w =
    if is_container b
    then lines_of (docker_key b.docker_container_id) lm w
    else if ltb 0 b.pid
    then lines_of (pid_key b.pid) lm w
    else ([], lm, w)

-- The three slices of the first loop.
pub record Sections : Type 0 where
  pub enabled : List BackendWithLogs
  pub disabled : List BackendWithLogs
  pub well_known : List BackendWithLogs

pub add_to_section : BackendWithLogs → Sections → Sections
add_to_section b s =
    if b.backend.disabled
    then record s { disabled = s.disabled ++ (b ∷ []) }
    else if source_beq b.backend.source from_well_known
    then record s { well_known = s.well_known ++ (b ∷ []) }
    else record s { enabled = s.enabled ++ (b ∷ []) }

-- The first loop.
pub collect : GoMap Bytes Backend → Sections → LogManager → World → Sections × LogManager × World
unfolding add_to_section recent_lines
collect [] s lm w = (s, lm, w)
collect ((name, b) ∷ backends) s lm w =
    let (lines, lm', w') = recent_lines b lm w in
    collect backends
      (add_to_section (record { backend = b; recent_logs = lines; display_path = [] }) s) lm' w'

abbrev pub has_source_docker : BackendWithLogs → Bool
has_source_docker b = source_beq b.backend.source from_docker

abbrev pub has_source_process : BackendWithLogs → Bool
has_source_process b = source_beq b.backend.source from_process

abbrev pub subdomain_of : BackendWithLogs → Bytes
subdomain_of b = b.backend.subdomain

abbrev pub docker_backends : Sections → List BackendWithLogs
docker_backends s = sort_by subdomain_of (keep_if has_source_docker s.enabled)

abbrev pub with_path : List Bytes → BackendWithLogs → BackendWithLogs
with_path bases b = record b { display_path = trim_base_path b.backend.cwd bases }

-- `processBackends`, with the loop that sets `DisplayPath`.
abbrev pub process_backends : List Bytes → Sections → List BackendWithLogs
process_backends bases s = map (with_path bases) (
    sort_by subdomain_of
      (keep_if (λ b. not (has_source_docker b)) s.enabled ++ keep_if has_source_process s.disabled))

abbrev pub other_disabled : Sections → List BackendWithLogs
other_disabled s = keep_if (λ b. not (has_source_process b)) (sort_by subdomain_of s.disabled)

abbrev pub well_known_backends : Sections → List BackendWithLogs
well_known_backends s = sort_by subdomain_of s.well_known

-- A process with its `displayCwd`.
abbrev pub Placed : Type 0
Placed = BackendWithLogs × Bytes

abbrev pub placed : List Bytes → BackendWithLogs → Placed
placed bases b = (b, first_element (trim_base_path b.backend.cwd bases))

abbrev pub count_at : Bytes → GoMap Bytes ℕ → ℕ
count_at d counts = elim (lookup d counts) [ none ↦ 0 | some n ↦ n ]

-- `displayCwdCounts`
pub count_dirs : List Placed → GoMap Bytes ℕ → GoMap Bytes ℕ
count_dirs [] counts = counts
count_dirs ((b, d) ∷ bs) counts =
    count_dirs bs (if bytes_beq d [] then counts else put d (count_at d counts + 1) counts)

abbrev pub is_shared : GoMap Bytes ℕ → Bytes → Bool
is_shared counts d = not (bytes_beq d []) && ltb 1 (count_at d counts)

abbrev pub is_grouped : GoMap Bytes Bool → Bytes → Bool
is_grouped grouped d = elim (lookup d grouped) [ none ↦ false | some g ↦ g ]

abbrev pub group_at : List Placed → BackendWithLogs → Bytes → ProcessGroup
group_at all b d = record {
  cwd = b.backend.cwd;
  display_cwd = d;
  backends = map (λ x. x.0) (keep_if (λ x. bytes_beq x.1 d) all);
}

-- The loop that fills `processGroups` and `ungroupedProcesses`, with `groupedDisplayCwds`.
pub group_from :
    GoMap Bytes ℕ
    → List Placed
    → List Placed
    → GoMap Bytes Bool
    → List ProcessGroup × List BackendWithLogs
group_from counts all [] grouped = ([], [])
group_from counts all ((b, d) ∷ rest) grouped = elim (is_shared counts d) [
  | true ↦ elim (is_grouped grouped d) [
    | true ↦ group_from counts all rest grouped
    | false ↦
        let (groups, alone) = group_from counts all rest (put d true grouped) in
        (group_at all b d ∷ groups, alone)
  ]
  | false ↦ let (groups, alone) = group_from counts all rest grouped in (groups, b ∷ alone)
]

pub group_processes : List Bytes → List BackendWithLogs → List ProcessGroup × List BackendWithLogs
unfolding group_from
group_processes bases bs =
    let all = map (placed bases) bs in
    let (groups, alone) = group_from (count_dirs all []) all all [] in
    (sort_by (λ g. g.cwd) groups, alone)
