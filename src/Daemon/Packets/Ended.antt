-- ===== src/Daemon/Packets/Ended.antt =====
-- `updatePacketSubscriptions` once the capture has ended, which closes the channels of its
-- subscriptions but leaves them in the map of the daemon.
use localproxy.Base.{◌≡◌, List, [], ◌∷◌, none, some, Bool, true, false, Bool-cases, inl, inr, arith}
use localproxy.Base.GoMap.{GoMap, lookup, HasUniqueKeys}
use localproxy.Net.{AddrPort, endpoint_beq_iff, endpoint_eq}
use localproxy.Dashboard.Backend.{Backend}
use localproxy.Tshark.Capture.{Subscription}
use localproxy.Tshark.Capture.Closing.{unsubscribe-closed}
use localproxy.Daemon.Packets.{
  Watch, mark_current, is_current, close_stale, update_packet_subscriptions,
}
use localproxy.Daemon.Packets.Endpoints.{is_enabled, is_current-mark_current}

close_stale-none :
    (current : GoMap AddrPort Bool) (rest : GoMap AddrPort Subscription) (w : Watch) (ep : AddrPort)
    (s : Subscription)
    → HasUniqueKeys rest
    → ((q : AddrPort) (t : Subscription) → lookup q rest ≡ some t → (w.channels t.ch).closed ≡ true)
    → lookup ep rest ≡ some s
    → is_current current ep ≡ false
    → close_stale current rest w ≡ none
unfolding close_stale
close_stale-none current [] w ep s u shut e off = absurd (ground arith)
close_stale-none current ((q, t) ∷ rest) w ep s u shut e off =
    elim (Bool-cases (is_current current q)) [
      | inr goes ↦
          ground (arith, unsubscribe-closed w.subs t w.channels, shut q t, endpoint_beq_iff q q)
      | inl stays ↦
          let later =
            close_stale-none current rest w ep s u.1
              (λ p r f. shut p r (ground (arith, endpoint_beq_iff q p, u.0)))
              (ground (arith, endpoint_beq_iff q ep)) off in
          ground arith
    ]

-- If the channels of the daemon's subscriptions are closed, as they are once the capture has ended, the
-- update panics as soon as some watched endpoint is no longer that of an enabled backend.
pub update_packet_subscriptions-ended :
    (backends : List Backend) (w : Watch) (ep : AddrPort) (s : Subscription)
    → HasUniqueKeys w.packet_subs
    → ((q : AddrPort) (t : Subscription)
        → lookup q w.packet_subs ≡ some t
        → (w.channels t.ch).closed ≡ true)
    → lookup ep w.packet_subs ≡ some s
    → is_enabled backends ep ≡ false
    → update_packet_subscriptions backends w ≡ none
unfolding update_packet_subscriptions
update_packet_subscriptions-ended backends w ep s u shut e off =
    let current = mark_current backends [] in
    let gone : is_current current ep ≡ false =
      ground (arith, is_current-mark_current backends [] ep) in
    ground (arith, close_stale-none current w.packet_subs w ep s u shut e gone)
