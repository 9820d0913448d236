-- ===== src/Discovery/Process/Scan.antt =====
-- `scan`: a process is found once, and a well-known port is taken once.
use localproxy.Base.{
  ℕ, ◌+◌, ◌≤◌, ◌<◌, ◌≡◌, refl, ◌∙◌, Bytes, List, [], ◌∷◌, Option, none, some, Bool, true, false,
  ◌||◌, ◌&&◌, if◌then◌else◌, bytes_beq, nat_beq, nat_beq_iff, nat_eq, arith, Bool-cases,
  Option-cases, inl, inr,
}
use localproxy.Base.GoMap.{lookup, put, lookup-put}
use localproxy.Net.{AddrPort}
use localproxy.Discovery.Types.{
  from_process, from_well_known, source_beq, DiscoveredService, Heap, Objects,
}
use localproxy.Discovery.WellKnown.{well_known_ports}
use localproxy.Discovery.Process.{
  Listener, ScanState, new_scan_state, is_set, PathResult, try_well_known, try_listening_process,
  get_cwd, resolve_path_info, find_matching_base_path, classify_listener, scan_listeners, scan,
}

-- The process of a service, on the heap.
abbrev pub pid_of : Heap → DiscoveredService → Option ℕ
pid_of h svc = elim svc.process [ none ↦ none | some a ↦ some (h.process_at a).pid ]

abbrev is_pid : ℕ → Option ℕ → Bool
is_pid pid none = false
is_pid pid (some p) = nat_beq p pid

-- How many services of the list are the process with this id.
pub times_found : ℕ → Heap → List DiscoveredService → ℕ
times_found pid h [] = 0
times_found pid h (svc ∷ services) =
    (if source_beq svc.source from_process && is_pid pid (pid_of h svc) then 1 else 0)
    + times_found pid h services

-- How many services of the list were taken for this well-known port.
pub times_taken : ℕ → List DiscoveredService → ℕ
times_taken port [] = 0
times_taken port (svc ∷ services) =
    (if source_beq svc.source from_well_known && nat_beq svc.endpoint.port port then 1 else 0)
    + times_taken port services

-- What the heap holds below its old end.
abbrev Grown : Objects → Objects → Type 0
Grown o o' =
    (o'.next ≡ o.next + 1) × ((a : ℕ) → a < o.next → o'.heap.process_at a ≡ o.heap.process_at a)

-- What one listener does: nothing, a well-known port, or a process.
data Classified (s : ScanState) (o : Objects) (r : Option DiscoveredService × ScanState × Objects)
    : Type 0 where
  nothing :
      r.0 ≡ none
      → r.1.seen_pid ≡ s.seen_pid
      → r.1.used_ports ≡ s.used_ports
      → r.2 ≡ o
      → Classified s o r
  a_port :
      (svc : DiscoveredService)
      → r.0 ≡ some svc
      → svc.source ≡ from_well_known
      → is_set svc.endpoint.port s.used_ports ≡ false
      → r.1.seen_pid ≡ s.seen_pid
      → r.1.used_ports ≡ put svc.endpoint.port true s.used_ports
      → Grown o r.2
      → Classified s o r
  a_process :
      (svc : DiscoveredService) (pid : ℕ)
      → r.0 ≡ some svc
      → svc.source ≡ from_process
      → svc.process ≡ some o.next
      → (r.2.heap.process_at o.next).pid ≡ pid
      → is_set pid s.seen_pid ≡ false
      → r.1.seen_pid ≡ put pid true s.seen_pid
      → r.1.used_ports ≡ put svc.endpoint.port true s.used_ports
      → Grown o r.2
      → Classified s o r

try_well_known-Classified :
    (pid : ℕ) (endpoint : AddrPort) (s : ScanState) (o : Objects)
    → Classified s o (try_well_known pid endpoint s o)
unfolding try_well_known
try_well_known-Classified pid endpoint s o =
    elim (Option-cases (lookup endpoint.port well_known_ports)) [
      | inl e ↦ nothing (ground arith) (ground arith) (ground arith) (ground arith)
      | inr (info, e) ↦ elim (Bool-cases (is_set endpoint.port s.used_ports)) [
        | inl used ↦ nothing (ground arith) (ground arith) (ground arith) (ground arith)
        | inr free ↦
            rw (try_well_known, e, free)
              (a_port _ refl refl free refl refl
                (refl, λ a less. ground (arith, nat_beq_iff o.next a)))
      ]
    ]

try_listening_process-Classified :
    (pid : ℕ) (endpoint : AddrPort) (result : PathResult) (cwd : Bytes) (s : ScanState)
    (o : Objects)
    → Classified s o (try_listening_process pid endpoint result cwd s o)
unfolding try_listening_process
try_listening_process-Classified pid endpoint result cwd s o =
    elim (Bool-cases (is_set pid s.seen_pid)) [
      | inl seen ↦ nothing (ground arith) (ground arith) (ground arith) (ground arith)
      | inr new ↦ rw new (
          a_process _ pid refl refl refl (ground (arith, nat_beq_iff o.next o.next)) new refl refl
            (refl, λ a less. ground (arith, nat_beq_iff o.next a)))
    ]

get_cwd_keeps :
    (cwd_of : ℕ → Bytes) (pid : ℕ) (s : ScanState)
    → ((get_cwd cwd_of pid s).1.seen_pid ≡ s.seen_pid)
      × ((get_cwd cwd_of pid s).1.used_ports ≡ s.used_ports)
unfolding get_cwd
get_cwd_keeps cwd_of pid s = ground arith

-- The cache of directories does not matter to what is counted.
Classified-cache :
    (s t : ScanState) (o : Objects) (r : Option DiscoveredService × ScanState × Objects)
    → t.seen_pid ≡ s.seen_pid
    → t.used_ports ≡ s.used_ports
    → Classified t o r
    → Classified s o r
Classified-cache s t o r e f (nothing a b c d) = nothing a (b ∙ e) (c ∙ f) d
Classified-cache s t o r e f (a_port svc a b c d g h) =
    a_port svc a b (ground arith) (d ∙ e) (ground arith) h
Classified-cache s t o r e f (a_process svc pid a b c d g h i j) =
    a_process svc pid a b c d (ground arith) (ground arith) (ground arith) j

classify_listener-Classified :
    (bases : List Bytes) (cwd_of : ℕ → Bytes) (entry : Listener) (s : ScanState) (o : Objects)
    → Classified s o (classify_listener bases cwd_of entry s o)
unfolding classify_listener
classify_listener-Classified bases cwd_of entry s o =
    let cwd = (get_cwd cwd_of entry.pid s).0 in
    let t = (get_cwd cwd_of entry.pid s).1 in
    let base = find_matching_base_path bases cwd in
    let result = resolve_path_info base cwd in
    let (e, f) = get_cwd_keeps cwd_of entry.pid s in
    Classified-cache s t o (classify_listener bases cwd_of entry s o) e f
      (elim (Bool-cases (bytes_beq cwd [] || bytes_beq base [])) [
        | inl outside ↦
            rw (classify_listener, outside) (try_well_known-Classified entry.pid entry.endpoint t o)
        | inr inside ↦
            rw (classify_listener, inside)
              (elim (Bool-cases (bytes_beq result.top_level_folder [])) [
                | inl none_here ↦ rw none_here (nothing refl refl refl refl)
                | inr folder ↦
                    rw folder
                      (try_listening_process-Classified entry.pid entry.endpoint result cwd t o)
              ])
      ])

-- A scan only adds objects.
scan_listeners-Grown :
    (bases : List Bytes) (cwd_of : ℕ → Bytes) (listeners : List Listener) (s : ScanState)
    (o : Objects)
    → let o' = (scan_listeners bases cwd_of listeners s o).2 in
      (o.next ≤ o'.next) × ((a : ℕ) → a < o.next → o'.heap.process_at a ≡ o.heap.process_at a)
unfolding scan_listeners
scan_listeners-Grown bases cwd_of [] s o = (omega arith, λ a less. refl)
scan_listeners-Grown bases cwd_of (entry ∷ listeners) s o =
    let (found, s', o') = classify_listener bases cwd_of entry s o in
    let later = scan_listeners-Grown bases cwd_of listeners s' o' in
    elim (classify_listener-Classified bases cwd_of entry s o) [
      | nothing a b c d ↦ (ground arith, λ q less. ground (arith, later.1 q))
      | a_port svc a b c d e g ↦
          (ground (arith, later.0, g.0), λ q less. ground (arith, later.1 q, g.0, g.1 q))
      | a_process svc pid a b c d e f h g ↦
          (ground (arith, later.0, g.0), λ q less. ground (arith, later.1 q, g.0, g.1 q))
    ]

-- What has been seen, as a count.
abbrev once : Bool → ℕ
once b = if b then 1 else 0

count_lem :
    (bases : List Bytes) (cwd_of : ℕ → Bytes) (listeners : List Listener) (s : ScanState)
    (o : Objects) (pid port : ℕ)
    → let (services, s', o') = scan_listeners bases cwd_of listeners s o in
      (times_found pid o'.heap services + once (is_set pid s.seen_pid) ≤ 1)
      × (times_taken port services + once (is_set port s.used_ports) ≤ 1)
unfolding scan_listeners times_found times_taken
count_lem bases cwd_of [] s o pid port = ground arith
count_lem bases cwd_of (entry ∷ listeners) s o pid port =
    let (found, s', o') = classify_listener bases cwd_of entry s o in
    let later = count_lem bases cwd_of listeners s' o' pid port in
    let grown = scan_listeners-Grown bases cwd_of listeners s' o' in
    elim (classify_listener-Classified bases cwd_of entry s o) [
      | nothing a b c d ↦ ground (arith, later)
      | a_port svc a b c d e g ↦ ground (
        arith,
        later,
        lookup-put svc.endpoint.port port true s.used_ports,
        nat_beq_iff svc.endpoint.port port,
      )
      | a_process svc p a b c d e f h g ↦ ground (
        arith,
        later,
        grown.1 o.next,
        g.0,
        nat_beq_iff p pid,
        lookup-put p pid true s.seen_pid,
        lookup-put svc.endpoint.port port true s.used_ports,
        nat_beq_iff svc.endpoint.port port,
      )
    ]

-- However many ports a process listens on, a scan lists it at most once as a process of a watched
-- directory; and it lists a well-known port at most once.
pub scan_once :
    (bases : List Bytes) (cwd_of : ℕ → Bytes) (listeners : List Listener) (o : Objects)
    (pid port : ℕ)
    → let (services, o') = scan bases cwd_of listeners o in
      (times_found pid o'.heap services ≤ 1) × (times_taken port services ≤ 1)
unfolding scan
scan_once bases cwd_of listeners o pid port =
    let counts = count_lem bases cwd_of listeners new_scan_state o pid port in
    (omega (arith, counts.0), omega (arith, counts.1))
