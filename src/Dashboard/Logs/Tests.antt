-- ===== src/Dashboard/Logs/Tests.antt =====
-- The handlers of logs on small inputs.
use localproxy.Base.{◌≡◌, refl, Bytes, codes, [], ◌∷◌, ◌++◌, true, bytes_eq, itoa}
use localproxy.Base.GoMap.{GoMap}
use localproxy.Net.{loopback}
use localproxy.Discovery.Types.{from_process, from_docker}
use localproxy.Proxy.Route.{plain_route}
use localproxy.Dashboard.Backend.{Backend, plain_backend}
use localproxy.Dashboard.Http.{http_error, written}
use localproxy.Dashboard.LogBuffer.{new_log_buffer}
use localproxy.Dashboard.LogBuffer.Space.{trim_space}
use localproxy.Dashboard.LogManager.{LogManager, World, get_buffer}
use localproxy.Dashboard.Overview.{recent_lines, lines_of}
use localproxy.Dashboard.Logs.{
  ContainerLogs, logged, events, log_events, stream_logs, serve_logs, serve_logs_preview,
}

abbrev web : Backend
web =
    record (plain_backend (plain_route (codes "web") (record { ip = loopback; port = 3000 }))
      from_process) { pid = 7 }

abbrev database : Backend
database =
    record (plain_backend (plain_route (codes "db") (record { ip = loopback; port = 5432 }))
      from_docker) { docker_container_id = codes "c0ffee" }

abbrev backends : GoMap Bytes Backend
backends = (codes "web", web) ∷ (codes "db", database) ∷ []

abbrev container_logs : Bytes → ContainerLogs
container_logs id =
    logged ((codes "headered" ++ codes " ready ") ∷ codes "headered" ∷ codes "headered  " ∷ [])

-- A header without a line is shown, since only a longer line loses its header; white space is not.
streams :
    serve_logs backends true container_logs (codes "db") (codes "text/event-stream")
    ≡ written (events (codes "ready" ∷ codes "headered" ∷ []))
unfolding serve_logs stream_logs log_events trim_space
streams = refl

no_stream :
    serve_logs backends true container_logs (codes "web") (codes "text/event-stream, */*")
    ≡ http_error 400 (codes "no logs available for this service")
unfolding serve_logs stream_logs
no_stream = refl

abbrev world : World
world = record {
  logs = λ a. new_log_buffer 10;
  next_log = 0;
  next_context = 0;
  cancelled = [];
  started = [];
}

abbrev manager : LogManager
manager = record { buffers = []; tracers = []; has_docker_client = true; trace_process_logs = true }

previews :
    (serve_logs_preview backends [] manager world).0 ≡ (codes "web", []) ∷ (codes "db", []) ∷ []
unfolding serve_logs_preview recent_lines lines_of get_buffer itoa
previews = refl
