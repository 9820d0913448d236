-- ===== src/Dashboard/LogManager/Tests.antt =====
-- Runs of the log manager on small inputs, and the theorem at a concrete input.
use localproxy.Base.{itoa, ◌≡◌, refl, codes, [], ◌∷◌, none, true, false, bytes_eq}
use localproxy.Base.GoMap.{lookup}
use localproxy.Discovery.Types.{from_docker, from_process}
use localproxy.Proxy.Route.{plain_route}
use localproxy.Dashboard.Backend.{Backend, plain_backend, dashboard_endpoint}
use localproxy.Dashboard.LogBuffer.{new_log_buffer}
use localproxy.Dashboard.LogManager.{
  LogManager, World, tail_docker_logs, pid_key, docker_key, start, start_tracing, stop_tracing,
  stop, visit, update_backends,
}
use localproxy.Dashboard.LogManager.Update.{is_wanted, update_backends_lem}

abbrev container : Backend
container = record (plain_backend (plain_route (codes "db") dashboard_endpoint) from_docker) {
  docker_container_id = codes "c0ffee";
}

abbrev process : Backend
process = record (plain_backend (plain_route (codes "web") dashboard_endpoint) from_process) {
  pid = 7;
}

-- A manager with a tracer for a process that is gone, and no tracing of processes.
abbrev manager : LogManager
manager = record {
  buffers = (pid_key 3, 0) ∷ [];
  tracers = (pid_key 3, 5) ∷ [];
  has_docker_client = true;
  trace_process_logs = false;
}

abbrev world : World
world = record {
  logs = λ a. new_log_buffer 10;
  next_log = 1;
  next_context = 6;
  cancelled = [];
  started = [];
}

-- The container gets a tracer, and the process that is gone loses its tracer and its buffer.
updates : update_backends (container ∷ process ∷ []) manager world ≡ (
  record manager { buffers = []; tracers = (docker_key (codes "c0ffee"), 6) ∷ [] },
  record world {
    next_context = 7;
    cancelled = 5 ∷ [];
    started = tail_docker_logs 6 (codes "c0ffee") ∷ [];
  },
)
unfolding update_backends visit start
updates = refl

-- `Stop` after a process is traced cancels every tracer.
stops :
    let (lm, w) = start_tracing (pid_key 7) 7 manager world in
    ((stop lm w).1.cancelled ≡ 5 ∷ 6 ∷ []) × ((stop_tracing (pid_key 3) lm w).1.cancelled ≡ 5 ∷ [])
unfolding start_tracing stop stop_tracing itoa
stops = (refl, refl)

update_backends_lem_example :
    lookup
      (docker_key (codes "c0ffee"))
      (update_backends (container ∷ process ∷ []) manager world).0.buffers
    ≡ none
unfolding is_wanted
update_backends_lem_example =
    (update_backends_lem (container ∷ process ∷ []) manager world (refl, tt) (refl, tt)).0
      (docker_key (codes "c0ffee"))
