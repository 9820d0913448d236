-- ===== src/Daemon/Packets.antt =====
-- cmd/localproxyd/caddy_daemon.go: `updatePacketSubscriptions`, which watches the endpoints of the
-- enabled backends. `none` is a panic.
pub mod Endpoints
pub mod Loops
pub mod Update
pub mod Ended
mod Tests
use localproxy.Base.{
  ℕ, ◌+◌, List, [], ◌∷◌, Option, none, some, Bool, true, false, if◌then◌else◌, nat_beq, is_some,
}
use localproxy.Base.GoMap.{GoMap, lookup, put, delete}
use localproxy.Base.Channel.{Channels}
use localproxy.Net.{AddrPort, endpoint_eq}
use localproxy.Dashboard.Backend.{Backend}
use localproxy.Tshark.Packet.{Packet}
use localproxy.Tshark.Buffer.{PacketBuffer, new_packet_buffer}
use localproxy.Tshark.Capture.{Subscription, Subs, subscribe, unsubscribe}

-- The two maps of the daemon, the subscriptions of the capture, and the heaps of channels and of
-- buffers. A buffer is made together with a channel, and has its address; `next` is the first
-- address that neither has.
pub record Watch : Type 0 where
  pub packet_subs : GoMap AddrPort Subscription
  pub packet_buffers : GoMap AddrPort ℕ
  pub subs : Subs
  pub channels : Channels Packet
  pub buffers : ℕ → PacketBuffer
  pub next : ℕ

-- The first loop: `current`.
pub mark_current : List Backend → GoMap AddrPort Bool → GoMap AddrPort Bool
mark_current [] current = current
mark_current (b ∷ bs) current =
    mark_current bs (if b.disabled then current else put b.endpoint true current)

-- `current[ep]`
abbrev pub is_current : GoMap AddrPort Bool → AddrPort → Bool
is_current current ep = elim (lookup ep current) [ none ↦ false | some b ↦ b ]

-- The second loop, over the entries of `packetSubs`.
pub close_stale : GoMap AddrPort Bool → GoMap AddrPort Subscription → Watch → Option Watch
close_stale current [] w = some w
close_stale current ((ep, sub) ∷ rest) w = elim (is_current current ep) [
  | true ↦ close_stale current rest w
  | false ↦ elim (unsubscribe w.subs sub w.channels) [
    | none ↦ none
    | some (subs, h) ↦ close_stale current rest (record w {
      packet_subs = delete ep w.packet_subs;
      packet_buffers = delete ep w.packet_buffers;
      subs = subs;
      channels = h;
    })
  ]
]

-- A new subscription and its buffer.
pub watch_endpoint : AddrPort → Watch → Watch
watch_endpoint ep w =
    let (sub, subs, h) = subscribe w.subs ep w.next w.channels in
    record w {
      packet_subs = put ep sub w.packet_subs;
      packet_buffers = put ep w.next w.packet_buffers;
      subs = subs;
      channels = h;
      buffers = λ a. if nat_beq w.next a then new_packet_buffer else w.buffers a;
      next = w.next + 1;
    }

-- The third loop, over the keys of `current`.
pub open_new : GoMap AddrPort Bool → Watch → Watch
unfolding watch_endpoint
open_new [] w = w
open_new ((ep, _) ∷ rest) w =
    open_new rest (if is_some (lookup ep w.packet_subs) then w else watch_endpoint ep w)

-- `updatePacketSubscriptions` on a daemon with a capture.
pub update_packet_subscriptions : List Backend → Watch → Option Watch
unfolding mark_current close_stale open_new
update_packet_subscriptions backends w =
    let current = mark_current backends [] in
    elim (close_stale current w.packet_subs w) [
      | none ↦ none
      | some w' ↦ some (open_new current w')
    ]
