-- ===== src/Dashboard/LogManager.antt =====
-- internal/dashboard/logbuffer.go: `LogManager`, which follows the logs of the backends that are
-- shown. A method is one step of the manager and of its surroundings.
pub mod Update
mod Tests
use localproxy.Base.{
  ℕ, suc, ◌+◌, Bytes, codes, List, [], ◌∷◌, ◌++◌, map, Option, none, some, Bool, true, false, not,
  ◌&&◌, if◌then◌else◌, ltb, nat_beq, bytes_beq, bytes_eq, keep_if, itoa, is_some,
}
use localproxy.Base.GoMap.{GoMap, lookup, put, delete}
use localproxy.Discovery.Types.{from_docker, source_beq}
use localproxy.Dashboard.Backend.{Backend}
use localproxy.Dashboard.LogBuffer.{LogBuffer, new_log_buffer}

-- The buffers and the contexts of the tracers, by their addresses. The Docker client counts only as
-- being there or not.
pub record LogManager : Type 0 where
  pub buffers : GoMap Bytes ℕ
  pub tracers : GoMap Bytes ℕ
  pub has_docker_client : Bool
  pub trace_process_logs : Bool

-- A goroutine that the manager has started, with its context.
pub data Job : Type 0 where
  trace_process : ℕ → Bytes → ℕ → Job
  tail_docker_logs : ℕ → Bytes → Job

-- The heap of buffers, the next free addresses, the contexts that were cancelled and the goroutines
-- that were started, in order.
pub record World : Type 0 where
  pub logs : ℕ → LogBuffer
  pub next_log : ℕ
  pub next_context : ℕ
  pub cancelled : List ℕ
  pub started : List Job

abbrev pub pid_key : ℕ → Bytes
pid_key pid = codes "pid:" ++ itoa pid

abbrev pub docker_key : Bytes → Bytes
docker_key id = codes "docker:" ++ id

-- `GetBuffer`: the address of the buffer, made at the first call.
unfoldable pub get_buffer : Bytes → LogManager → World → ℕ × LogManager × World
get_buffer key lm w = elim (lookup key lm.buffers) [
  | some a ↦ (a, lm, w)
  | none ↦
      let a = w.next_log in
      (
        a,
        record lm { buffers = put key a lm.buffers },
        record w {
          next_log = a + 1;
          logs = λ b. if nat_beq a b then new_log_buffer 10 else w.logs b;
        },
      )
]

-- What `StartTracing` and `StartDockerLogs` share: nothing if the key has a tracer.
pub start : Bytes → (ℕ → Job) → LogManager → World → LogManager × World
start key job lm w = elim (lookup key lm.tracers) [
  | some _ ↦ (lm, w)
  | none ↦
      let c = w.next_context in
      (
        record lm { tracers = put key c lm.tracers },
        record w { next_context = c + 1; started = w.started ++ (job c ∷ []) },
      )
]

pub start_tracing : Bytes → ℕ → LogManager → World → LogManager × World
unfolding start
start_tracing key pid lm w = start key (λ c. trace_process c key pid) lm w

pub start_docker_logs : Bytes → LogManager → World → LogManager × World
unfolding start
start_docker_logs id lm w =
    if not lm.has_docker_client
    then (lm, w)
    else start (docker_key id) (λ c. tail_docker_logs c id) lm w

-- `StopTracing`
pub stop_tracing : Bytes → LogManager → World → LogManager × World
stop_tracing key lm w = elim (lookup key lm.tracers) [
  | none ↦ (lm, w)
  | some c ↦ (
    record lm { tracers = delete key lm.tracers },
    record w { cancelled = w.cancelled ++ (c ∷ []) },
  )
]

-- `backend.Source == discovery.RouteSourceDocker && backend.DockerContainerID != ""`
abbrev pub is_container : Backend → Bool
is_container b = source_beq b.source from_docker && not (bytes_beq b.docker_container_id [])

-- The state of the first loop of `UpdateBackends`, with `activeKeys`.
pub record Pass : Type 0 where
  pub active : GoMap Bytes Bool
  pub manager : LogManager
  pub world : World

-- The two branches of the loop.
abbrev pub visit_container : Bytes → Pass → Pass
unfolding start_docker_logs
visit_container id s =
    let (lm, w) = start_docker_logs id s.manager s.world in
    record { active = put (docker_key id) true s.active; manager = lm; world = w }

abbrev pub visit_process : ℕ → Pass → Pass
unfolding start_tracing
visit_process pid s =
    let (lm, w) = start_tracing (pid_key pid) pid s.manager s.world in
    record { active = put (pid_key pid) true s.active; manager = lm; world = w }

pub visit : Backend → Pass → Pass
unfolding visit_container visit_process
visit b s =
    if is_container b
    then visit_container b.docker_container_id s
    else if s.manager.trace_process_logs && ltb 0 b.pid
    then visit_process b.pid s
    else s

pub visit_all : List Backend → Pass → Pass
unfolding visit
visit_all [] s = s
visit_all (b ∷ bs) s = visit_all bs (visit b s)

-- `activeKeys[key]`
abbrev pub is_active : GoMap Bytes Bool → Bytes → Bool
is_active active key = elim (lookup key active) [ none ↦ false | some b ↦ b ]

-- The two loops that follow: tracers and buffers that are not active go.
pub sweep : Pass → LogManager × World
sweep s =
    let idle : Bytes × ℕ → Bool = λ e. not (is_active s.active e.0) in
    (
      record s.manager {
        tracers = keep_if (λ e. is_active s.active e.0) s.manager.tracers;
        buffers = keep_if (λ e. is_active s.active e.0) s.manager.buffers;
      },
      record s.world {
        cancelled = s.world.cancelled ++ map (λ e. e.1) (keep_if idle s.manager.tracers);
      },
    )

pub update_backends : List Backend → LogManager → World → LogManager × World
unfolding visit_all sweep
update_backends bs lm w = sweep (visit_all bs (record { active = []; manager = lm; world = w }))

-- `Stop`
pub stop : LogManager → World → LogManager × World
stop lm w =
    (record lm { tracers = [] }, record w { cancelled = w.cancelled ++ map (λ e. e.1) lm.tracers })
