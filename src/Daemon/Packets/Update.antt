-- ===== src/Daemon/Packets/Update.antt =====
-- `updatePacketSubscriptions` as a whole: exactly the endpoints of the enabled backends are watched.
use localproxy.Base.{
  ◌≡◌, refl, List, [], ◌∷◌, some, Bool, true, is_some, Bool-cases, inl, inr, arith,
}
use localproxy.Base.GoMap.{GoMap, lookup, put, lookup-put}
use localproxy.Net.{AddrPort, endpoint_eq}
use localproxy.Dashboard.Backend.{Backend}
use localproxy.Tshark.Capture.{Subscription}
use localproxy.Daemon.Packets.{
  Watch, mark_current, is_current, open_new, update_packet_subscriptions,
}
use localproxy.Daemon.Packets.Endpoints.{IsValid, is_enabled, is_current-mark_current}
use localproxy.Daemon.Packets.Loops.{close_stale-Closed, open_new-Opened}

-- The keys of `current` all map to `true`.
keys-mark_current :
    (bs : List Backend) (current : GoMap AddrPort Bool)
    → ((ep : AddrPort) → is_some (lookup ep current) ≡ is_current current ep)
    → (ep : AddrPort)
    → is_some (lookup ep (mark_current bs current)) ≡ is_current (mark_current bs current) ep
unfolding mark_current
keys-mark_current [] current f ep = f ep
keys-mark_current (b ∷ bs) current f ep = elim (Bool-cases b.disabled) [
  | inl off ↦ ground (arith, keys-mark_current bs current f ep)
  | inr on ↦ ground (
    arith,
    keys-mark_current bs (put b.endpoint true current)
        (λ q. ground (arith, lookup-put b.endpoint q true current, f q)) ep,
  )
]

-- From a valid state the update does not panic and leaves a valid state. Afterwards an endpoint has a
-- subscription exactly when it is the endpoint of an enabled backend, and one that had a subscription
-- before keeps it, and its buffer.
pub update_packet_subscriptions_lem :
    (backends : List Backend) (w : Watch)
    → IsValid w
    → (w' : Watch) × (update_packet_subscriptions backends w ≡ some w')
      × IsValid w'
      × ((ep : AddrPort) → is_some (lookup ep w'.packet_subs) ≡ is_enabled backends ep)
      × ((ep : AddrPort) (s : Subscription)
          → lookup ep w.packet_subs ≡ some s
          → is_enabled backends ep ≡ true
          → (lookup ep w'.packet_subs ≡ some s)
            × (lookup ep w'.packet_buffers ≡ lookup ep w.packet_buffers))
unfolding update_packet_subscriptions
update_packet_subscriptions_lem backends w v =
    let current = mark_current backends [] in
    let (mid, e, closed) = close_stale-Closed current w.packet_subs w v v.unique (λ ep s f. f) in
    let opened = open_new-Opened current mid closed.valid in
    let marks : (ep : AddrPort) → is_current current ep ≡ is_enabled backends ep =
      λ ep. ground (arith, is_current-mark_current backends [] ep) in
    (
      open_new current mid,
      ground arith,
      opened.valid,
      (λ ep. ground (
        arith,
        opened.watched ep,
        closed.subs_left ep,
        marks ep,
        keys-mark_current backends [] (λ q. refl) ep,
      )),
      (λ ep s f on.
          ground (arith, opened.kept ep s, closed.subs_left ep, closed.buffers_left ep, marks ep)),
    )
