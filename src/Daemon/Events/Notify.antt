-- ===== src/Daemon/Events/Notify.antt =====
-- The notifications of `onProcessesChanged`.
use localproxy.Base.{
  ℕ, ◌+◌, ◌≤◌, ◌≡◌, Bytes, List, [], ◌∷◌, Bool, true, false, ◌||◌, if◌then◌else◌, bytes_beq,
  bytes_beq_iff, bytes_eq, Bool-cases, inl, inr, arith,
}
use localproxy.Base.GoMap.{GoMap, put, lookup-put}
use localproxy.Discovery.Types.{DiscoveredService, Heap}
use localproxy.Daemon.Events.{is_seen, notify_new}

-- How often the name stands in the list.
pub times : Bytes → List Bytes → ℕ
times name [] = 0
times name (n ∷ names) = (if bytes_beq n name then 1 else 0) + times name names

pub is_named : Bytes → List DiscoveredService → Bool
is_named name [] = false
is_named name (s ∷ services) = bytes_beq s.subdomain name || is_named name services

-- A name is notified at most once, and never when it was seen before; the names seen afterwards are
-- those seen before and those of the services.
notify_new_lem :
    (started : Bool) (h : Heap) (services : List DiscoveredService) (seen : GoMap Bytes Bool)
    (name : Bytes)
    → let (names, seen') = notify_new started h services seen in
      (times name names + (if is_seen seen name then 1 else 0) ≤ 1)
      × (is_seen seen' name ≡ (is_seen seen name || is_named name services))
unfolding notify_new times is_named
notify_new_lem started h [] seen name = ground arith
notify_new_lem started h (s ∷ services) seen name = elim (Bool-cases (is_seen seen s.subdomain)) [
  | inl old ↦
      ground (arith, notify_new_lem started h services seen name, bytes_beq_iff s.subdomain name)
  | inr new ↦ ground (
    arith,
    notify_new_lem started h services (put s.subdomain true seen) name,
    lookup-put s.subdomain name true seen,
    bytes_beq_iff s.subdomain name,
  )
]
