-- ===== src/Dashboard/LogManager/Update.antt =====
-- What `UpdateBackends` starts, keeps and stops.
use localproxy.Base.{
  ℕ, ◌≡◌, refl, ap, ap₂, fun_ext, ◌∙◌, Bytes, List, [], ◌∷◌, ◌++◌, map, Option, none, some, Bool,
  true, false, not, ◌&&◌, ◌||◌, if◌then◌else◌, ltb, bytes_beq, bytes_beq_iff, bytes_eq, keep_if,
  is_some, arith, ◌≢◌, nat_beq_iff, Bool-cases, inl, inr,
}
use localproxy.Base.GoMap.{
  GoMap, lookup, put, lookup-put, HasUniqueKeys, HasUniqueKeys-put, lookup-keep_if,
}
use localproxy.Dashboard.Backend.{Backend}
use localproxy.Dashboard.LogManager.{
  LogManager, World, Job, Pass, pid_key, docker_key, is_container, start, start_tracing,
  start_docker_logs, get_buffer, visit, visit_all, is_active, sweep, update_backends,
}

-- The log that a backend asks for, with the manager's flag.
pub log_key : Bool → Backend → Option Bytes
log_key traces b =
    if is_container b
    then some (docker_key b.docker_container_id)
    else if traces && ltb 0 b.pid
    then some (pid_key b.pid)
    else none

pub asks_for : Bool → Bytes → Backend → Bool
unfolding log_key
asks_for traces k b = elim (log_key traces b) [ none ↦ false | some key ↦ bytes_beq key k ]

-- Whether some backend asks for the log.
unfoldable pub is_wanted : Bool → List Backend → Bytes → Bool
unfolding asks_for
is_wanted traces [] k = false
is_wanted traces (b ∷ bs) k = asks_for traces k b || is_wanted traces bs k

-- Whether some backend asks for it that can be followed: a container needs the Docker client.
pub is_startable : Bool → Bool → List Backend → Bytes → Bool
unfolding asks_for
is_startable traces docker [] k = false
is_startable traces docker (b ∷ bs) k =
    (asks_for traces k b && (docker || not (is_container b))) || is_startable traces docker bs k

startable→wanted :
    (traces docker : Bool) (bs : List Backend) (k : Bytes)
    → is_startable traces docker bs k ≡ true
    → is_wanted traces bs k ≡ true
unfolding is_startable is_wanted
startable→wanted traces docker [] k h = h
startable→wanted traces docker (b ∷ bs) k h = ground (arith, startable→wanted traces docker bs k)

-- A visit changes the tracers of the manager alone.
keeps-visit :
    (b : Backend) (s : Pass)
    → ((visit b s).manager.buffers ≡ s.manager.buffers)
      × ((visit b s).manager.trace_process_logs ≡ s.manager.trace_process_logs)
      × ((visit b s).manager.has_docker_client ≡ s.manager.has_docker_client)
      × ((visit b s).world.cancelled ≡ s.world.cancelled)
unfolding visit start_tracing start_docker_logs start
keeps-visit b s = ground arith

is_active-visit :
    (b : Backend) (s : Pass) (k : Bytes)
    → is_active (visit b s).active k
      ≡ (asks_for s.manager.trace_process_logs k b || is_active s.active k)
unfolding visit start_tracing start_docker_logs start asks_for log_key
is_active-visit b s k = ground (
  arith,
  lookup-put (docker_key b.docker_container_id) k true s.active,
  lookup-put (pid_key b.pid) k true s.active,
)

lookup-start :
    (key : Bytes) (job : ℕ → Job) (lm : LogManager) (w : World) (k : Bytes)
    → lookup k (start key job lm w).0.tracers ≡ elim (lookup k lm.tracers) [
      | some c ↦ some c
      | none ↦ if bytes_beq key k then some w.next_context else none
    ]
unfolding start
lookup-start key job lm w k =
    ground (arith, bytes_beq_iff key k, lookup-put key k w.next_context lm.tracers)

-- A visit keeps the tracers that are there, and gives the log it follows a new one.
lookup-visit :
    (b : Backend) (s : Pass) (k : Bytes)
    → lookup k (visit b s).manager.tracers ≡ elim (lookup k s.manager.tracers) [
      | some c ↦ some c
      | none ↦
          if asks_for s.manager.trace_process_logs k b
            && (s.manager.has_docker_client || not (is_container b))
          then some s.world.next_context
          else none
    ]
unfolding visit start_tracing start_docker_logs asks_for log_key
lookup-visit b s k =
    let id = b.docker_container_id in
    let container =
      lookup-start (docker_key id) (λ c. Job.tail_docker_logs c id) s.manager s.world k in
    let process =
      lookup-start (pid_key b.pid) (λ c. Job.trace_process c (pid_key b.pid) b.pid) s.manager
        s.world k in
    elim (Bool-cases (is_container b)) [
      | inl docker ↦ elim (Bool-cases s.manager.has_docker_client) [
        | inl client ↦ ground (arith, container)
        | inr client ↦ ground (arith, container)
      ]
      | inr other ↦ elim (Bool-cases (s.manager.trace_process_logs && ltb 0 b.pid)) [
        | inl on ↦ ground (arith, process)
        | inr off ↦ ground (arith, process)
      ]
    ]

unique-visit :
    (b : Backend) (s : Pass)
    → HasUniqueKeys s.manager.tracers
    → HasUniqueKeys (visit b s).manager.tracers
unfolding visit start_tracing start_docker_logs start
unique-visit b s u = ground (
  arith,
  HasUniqueKeys-put (docker_key b.docker_container_id) s.world.next_context s.manager.tracers u,
  HasUniqueKeys-put (pid_key b.pid) s.world.next_context s.manager.tracers u,
)

-- A new entry that fails a test does not show among those that pass it.
keep_if-put :
    (p : Bytes × ℕ → Bool) (k : Bytes) (v : ℕ) (m : GoMap Bytes ℕ)
    → lookup k m ≡ none
    → p (k, v) ≡ false
    → keep_if p (put k v m) ≡ keep_if p m
keep_if-put p k v [] n f = rw f refl
keep_if-put p k v ((j, w) ∷ m) n f = ground (arith, keep_if-put p k v m)

-- The tracers that a test on the names rejects are none of those that a visit starts.
keep_if-visit :
    (p : Bytes → Bool) (b : Backend) (s : Pass)
    → ((k : Bytes) → asks_for s.manager.trace_process_logs k b ≡ true → p k ≡ false)
    → keep_if (λ e. p e.0) (visit b s).manager.tracers ≡ keep_if (λ e. p e.0) s.manager.tracers
unfolding visit start_tracing start_docker_logs start asks_for log_key
keep_if-visit p b s f = ground (
  arith,
  f (docker_key b.docker_container_id),
  f (pid_key b.pid),
  bytes_beq_iff (docker_key b.docker_container_id) (docker_key b.docker_container_id),
  bytes_beq_iff (pid_key b.pid) (pid_key b.pid),
  keep_if-put (λ e. p e.0) (docker_key b.docker_container_id) s.world.next_context
      s.manager.tracers,
  keep_if-put (λ e. p e.0) (pid_key b.pid) s.world.next_context s.manager.tracers,
)

-- What the whole loop does to the marks and to the manager.
record Visited (bs : List Backend) (s s' : Pass) : Type 0 where
  buffers : s'.manager.buffers ≡ s.manager.buffers
  cancelled : s'.world.cancelled ≡ s.world.cancelled
  active :
      (k : Bytes)
      → is_active s'.active k
        ≡ (is_wanted s.manager.trace_process_logs bs k || is_active s.active k)
  kept :
      (k : Bytes) (c : ℕ)
      → lookup k s.manager.tracers ≡ some c
      → lookup k s'.manager.tracers ≡ some c
  traced :
      (k : Bytes)
      → is_some (lookup k s'.manager.tracers) ≡ (
          is_some (lookup k s.manager.tracers)
          || is_startable s.manager.trace_process_logs s.manager.has_docker_client bs k)
  unique : HasUniqueKeys s.manager.tracers → HasUniqueKeys s'.manager.tracers
  hidden :
      (p : Bytes → Bool)
      → ((k : Bytes) → is_wanted s.manager.trace_process_logs bs k ≡ true → p k ≡ false)
      → keep_if (λ e. p e.0) s'.manager.tracers ≡ keep_if (λ e. p e.0) s.manager.tracers

visit_all-Visited : (bs : List Backend) (s : Pass) → Visited bs s (visit_all bs s)
unfolding visit_all is_wanted is_startable
visit_all-Visited [] s = record {
  buffers = refl;
  cancelled = refl;
  active = λ k. refl;
  kept = λ k c e. e;
  traced = λ k. ground arith;
  unique = λ u. u;
  hidden = λ p f. refl;
}
visit_all-Visited (b ∷ bs) s =
    let step = keeps-visit b s in
    let later = visit_all-Visited bs (visit b s) in
    record {
      buffers = later.buffers ∙ step.0;
      cancelled = later.cancelled ∙ step.3;
      active = λ k. ground (arith, later.active k, is_active-visit b s k, step);
      kept = λ k c e. later.kept k c (lookup-visit b s k ∙ rw e refl);
      traced = λ k. ground (arith, later.traced k, lookup-visit b s k, step);
      unique = λ u. later.unique (unique-visit b s u);
      hidden = λ p f.
          later.hidden p (λ k e. f k (ground (arith, step)))
          ∙ keep_if-visit p b s (λ k e. f k (ground arith));
    }

-- After `UpdateBackends` a log has a buffer if it had one and some backend asks for it. It has a tracer
-- if some backend asks for it, and it had one or can be followed; a tracer that stays keeps its
-- context. The contexts of the tracers that nobody asks for are cancelled, and no others.
pub update_backends_lem :
    (bs : List Backend) (lm : LogManager) (w : World)
    → HasUniqueKeys lm.buffers
    → HasUniqueKeys lm.tracers
    → let (lm', w') = update_backends bs lm w in
      let wanted = is_wanted lm.trace_process_logs bs in
      ((k : Bytes) → lookup k lm'.buffers ≡ (if wanted k then lookup k lm.buffers else none))
      × ((k : Bytes)
          → is_some (lookup k lm'.tracers) ≡ (
              wanted k
              && (is_some (lookup k lm.tracers)
                  || is_startable lm.trace_process_logs lm.has_docker_client bs k)))
      × ((k : Bytes) (c : ℕ)
          → lookup k lm.tracers ≡ some c
          → wanted k ≡ true
          → lookup k lm'.tracers ≡ some c)
      × (w'.cancelled ≡ w.cancelled ++ map (λ e. e.1) (keep_if (λ e. not (wanted e.0)) lm.tracers))
unfolding update_backends sweep
update_backends_lem bs lm w ub ut =
    let s : Pass = record { active = []; manager = lm; world = w } in
    let v = visit_all-Visited bs s in
    let s' = visit_all bs s in
    let wanted = is_wanted lm.trace_process_logs bs in
    let active : (k : Bytes) → is_active s'.active k ≡ wanted k = λ k. ground (arith, v.active k) in
    let idle : keep_if (λ e. not (is_active s'.active e.0)) s'.manager.tracers
        ≡ keep_if (λ e. not (wanted e.0)) lm.tracers =
      ap (λ f. keep_if (λ (e : Bytes × ℕ). not (f e.0)) s'.manager.tracers) (fun_ext active)
      ∙ v.hidden (λ k. not (wanted k)) (λ k e. rw e refl) in
    let is_kept : Bytes × ℕ → Bool = λ e. is_active s'.active e.0 in
    let unique = v.unique ut in
    (
      (λ k.
          ap (λ m. lookup k (keep_if is_kept m)) v.buffers
          ∙ lookup-keep_if is_kept k lm.buffers ub
          ∙ ground (arith, active k)),
      (λ k. ground (
        arith,
        lookup-keep_if is_kept k s'.manager.tracers unique,
        active k,
        v.traced k,
        startable→wanted lm.trace_process_logs lm.has_docker_client bs k,
      )),
      (λ k c e on.
          ground
            (arith, lookup-keep_if is_kept k s'.manager.tracers unique, active k, v.kept k c e)),
      ap₂ ◌++◌ v.cancelled (ap (map (λ e. e.1)) idle),
    )

-- A log has one buffer: a second `GetBuffer` for the same key returns the first one's and changes
-- nothing, and the first call changes no other key and no buffer that is there.
get_buffer_twice :
    (key : Bytes) (lm : LogManager) (w : World)
    → let (a, lm', w') = get_buffer key lm w in
      (get_buffer key lm' w' ≡ (a, lm', w'))
      × ((k : Bytes) → k ≢ key → lookup k lm'.buffers ≡ lookup k lm.buffers)
      × ((b : ℕ) → b ≢ w.next_log → w'.logs b ≡ w.logs b)
      × (lm'.tracers ≡ lm.tracers)
unfolding get_buffer
get_buffer_twice key lm w = (
  ground (arith, lookup-put key key w.next_log lm.buffers, bytes_beq_iff key key),
  (λ k ne. ground (arith, lookup-put key k w.next_log lm.buffers, bytes_beq_iff key k)),
  (λ b ne. ground (arith, nat_beq_iff w.next_log b)),
  ground arith,
)
