-- ===== src/Daemon/Packets/Endpoints.antt =====
-- Which endpoints are watched after `updatePacketSubscriptions`, and that it does not panic.
use localproxy.Base.{
  ◌<◌, ◌≡◌, refl, List, [], ◌∷◌, none, some, Bool, true, false, not, ◌&&◌, ◌||◌, nat_beq_iff,
  Bool-cases, inl, inr, arith,
}
use localproxy.Base.GoMap.{
  GoMap, lookup, put, delete, lookup-put, lookup-delete, HasUniqueKeys, HasUniqueKeys-put,
  HasUniqueKeys-delete,
}
use localproxy.Base.Channel.{store_chan}
use localproxy.Net.{AddrPort, endpoint_beq, endpoint_beq_iff, endpoint_eq}
use localproxy.Dashboard.Backend.{Backend}
use localproxy.Tshark.Capture.{Subscription, drop_sub, subscribe}
use localproxy.Daemon.Packets.{Watch, mark_current, is_current, watch_endpoint}

-- Each endpoint has one subscription on an open channel of its own.
pub record IsValid (w : Watch) : Type 0 where
  pub unique : HasUniqueKeys w.packet_subs
  pub live :
      (ep : AddrPort) (s : Subscription)
      → lookup ep w.packet_subs ≡ some s
      → ((w.channels s.ch).closed ≡ false) × (s.ch < w.next)
  pub apart :
      (ep other : AddrPort) (s t : Subscription)
      → lookup ep w.packet_subs ≡ some s
      → lookup other w.packet_subs ≡ some t
      → s.ch ≡ t.ch
      → ep ≡ other

-- The endpoint of an enabled backend.
unfoldable pub is_enabled : List Backend → AddrPort → Bool
is_enabled [] ep = false
is_enabled (b ∷ bs) ep = (not b.disabled && endpoint_beq b.endpoint ep) || is_enabled bs ep

pub is_current-mark_current :
    (bs : List Backend) (current : GoMap AddrPort Bool) (ep : AddrPort)
    → is_current (mark_current bs current) ep ≡ (is_enabled bs ep || is_current current ep)
unfolding mark_current is_enabled
is_current-mark_current [] current ep = refl
is_current-mark_current (b ∷ bs) current ep = elim (Bool-cases b.disabled) [
  | inl off ↦ ground (arith, is_current-mark_current bs current ep)
  | inr on ↦ ground (
    arith,
    is_current-mark_current bs (put b.endpoint true current) ep,
    lookup-put b.endpoint ep true current,
  )
]

-- The state after one stale subscription is closed.
abbrev pub closed_at : AddrPort → Subscription → Watch → Watch
closed_at ep sub w = record w {
  packet_subs = delete ep w.packet_subs;
  packet_buffers = delete ep w.packet_buffers;
  subs = drop_sub sub w.subs;
  channels = store_chan w.channels sub.ch (record (w.channels sub.ch) { closed = true });
}

pub closed_at-IsValid :
    (ep : AddrPort) (sub : Subscription) (w : Watch)
    → IsValid w
    → lookup ep w.packet_subs ≡ some sub
    → IsValid (closed_at ep sub w)
closed_at-IsValid ep sub w v e = record {
  unique = HasUniqueKeys-delete ep w.packet_subs v.unique;
  live = λ q s f. ground (
    arith,
    lookup-delete ep q w.packet_subs,
    endpoint_beq_iff ep q,
    v.live q s,
    v.apart ep q sub s,
    nat_beq_iff sub.ch s.ch,
  );
  apart = λ q r s t f g.
      v.apart q r s t (ground (arith, lookup-delete ep q w.packet_subs))
        (ground (arith, lookup-delete ep r w.packet_subs));
}

pub watch_endpoint-IsValid :
    (ep : AddrPort) (w : Watch)
    → IsValid w
    → lookup ep w.packet_subs ≡ none
    → IsValid (watch_endpoint ep w)
unfolding watch_endpoint subscribe
watch_endpoint-IsValid ep w v e =
    let sub : Subscription = record { ch = w.next; target = ep } in
    let known = λ (q : AddrPort). lookup-put ep q sub w.packet_subs in
    record {
      unique = HasUniqueKeys-put ep sub w.packet_subs v.unique;
      live = λ q s f.
          ground (arith, known q, endpoint_beq_iff ep q, v.live q s, nat_beq_iff w.next s.ch);
      apart = λ q r s t f g same. ground (
        arith,
        known q,
        known r,
        endpoint_beq_iff ep q,
        endpoint_beq_iff ep r,
        v.live q s,
        v.live r t,
        v.apart q r s t,
      );
    }
