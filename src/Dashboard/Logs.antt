-- ===== src/Dashboard/Logs.antt =====
-- internal/dashboard/server.go: the handlers of logs. What the Docker client gives is an argument.
mod Tests
use localproxy.Base.{
  ℕ, Bytes, codes, List, [], ◌∷◌, Option, none, some, Bool, true, false, not, ◌&&◌, ◌||◌,
  if◌then◌else◌, ltb, length, drop, bytes_beq, bytes_eq,
}
use localproxy.Base.GoMap.{GoMap, lookup, put}
use localproxy.Base.Text.{contains}
use localproxy.Discovery.Types.{from_docker, source_beq}
use localproxy.Dashboard.Backend.{Backend}
use localproxy.Dashboard.Http.{Response, http_error, written}
use localproxy.Dashboard.LogBuffer.Space.{trim_space}
use localproxy.Dashboard.LogManager.{LogManager, World, is_container}
use localproxy.Dashboard.Overview.{recent_lines}

abbrev has_log : Backend → Bool
has_log b = is_container b || ltb 0 b.pid

-- `serveLogsPreview`: the lines of each backend that has a log, by its subdomain.
pub serve_logs_preview :
    GoMap Bytes Backend
    → GoMap Bytes (List Bytes)
    → LogManager
    → World
    → GoMap Bytes (List Bytes) × LogManager × World
serve_logs_preview [] logs lm w = (logs, lm, w)
serve_logs_preview ((name, b) ∷ backends) logs lm w =
    let (lines, lm', w') = recent_lines b lm w in
    serve_logs_preview backends (if has_log b then put b.subdomain lines logs else logs) lm' w'

-- The events of the loop of `streamLogs`. A line of a container has a header of 8 bytes.
pub log_events : Bool → List Bytes → List Bytes
log_events is_docker [] = []
log_events is_docker (line ∷ lines) =
    let rest = log_events is_docker lines in
    let text = trim_space (if is_docker && ltb 8 (length line) then drop 8 line else line) in
    if bytes_beq text [] then rest else text ∷ rest

-- What `ContainerLogs` gives: there is no client, an error, or the lines of its reader.
pub data ContainerLogs : Type 0 where
  no_client : ContainerLogs
  no_logs : ContainerLogs
  logged : List Bytes → ContainerLogs

pub record LogPage : Type 0 where
  pub subdomain : Bytes
  pub pid : ℕ
  pub port : ℕ
  pub cwd : Bytes

pub data LogAnswer : Type 0 where
  page : LogPage → LogAnswer
  events : List Bytes → LogAnswer

-- `streamLogs`, for a backend that is there.
pub stream_logs : Bool → (Bytes → ContainerLogs) → Backend → Response LogAnswer
unfolding log_events
stream_logs can_flush container_logs b =
    if not can_flush
    then http_error 500 (codes "streaming not supported")
    else if not (is_container b)
    then http_error 400 (codes "no logs available for this service")
    else elim (container_logs b.docker_container_id) [
      | no_client ↦ http_error 500 (codes "docker client not available")
      | no_logs ↦ http_error 500 (codes "failed to get docker logs")
      | logged lines ↦ written (events (log_events (source_beq b.source from_docker) lines))
    ]

-- `serveLogs`, with the query's `subdomain` and the header Accept.
pub serve_logs :
    GoMap Bytes Backend → Bool → (Bytes → ContainerLogs) → Bytes → Bytes → Response LogAnswer
unfolding stream_logs
serve_logs backends can_flush container_logs subdomain accept =
    if bytes_beq subdomain []
    then http_error 400 (codes "subdomain parameter required")
    else elim (lookup subdomain backends) [
      | none ↦ http_error 404 (codes "service not found")
      | some b ↦
          if contains accept (codes "text/event-stream")
          then stream_logs can_flush container_logs b
          else written (
              page (record {
                subdomain = b.subdomain;
                pid = b.pid;
                port = b.endpoint.port;
                cwd = b.cwd;
              }))
    ]
