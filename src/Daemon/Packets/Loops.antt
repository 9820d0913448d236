-- ===== src/Daemon/Packets/Loops.antt =====
-- The two loops of `updatePacketSubscriptions` that close and open subscriptions.
use localproxy.Base.{
  ◌≡◌, refl, [], ◌∷◌, none, some, Bool, not, ◌&&◌, ◌||◌, if◌then◌else◌, is_some, Bool-cases,
  Option-cases, inl, inr, arith,
}
use localproxy.Base.GoMap.{GoMap, lookup, lookup-put, lookup-delete, HasUniqueKeys}
use localproxy.Net.{AddrPort, endpoint_beq_iff, endpoint_eq}
use localproxy.Tshark.Capture.{Subscription, subscribe}
use localproxy.Tshark.Capture.Closing.{unsubscribe-open}
use localproxy.Daemon.Packets.{Watch, is_current, close_stale, watch_endpoint, open_new}
use localproxy.Daemon.Packets.Endpoints.{
  IsValid, closed_at, closed_at-IsValid, watch_endpoint-IsValid,
}

-- What the closing loop does when it has these entries to go.
pub record Closed (current : GoMap AddrPort Bool) (rest : GoMap AddrPort Subscription)
    (w w' : Watch) : Type 0 where
  pub valid : IsValid w'
  pub subs_left :
      (ep : AddrPort)
      → lookup ep w'.packet_subs ≡ (
          if is_some (lookup ep rest) && not (is_current current ep)
          then none
          else lookup ep w.packet_subs)
  pub buffers_left :
      (ep : AddrPort)
      → lookup ep w'.packet_buffers ≡ (
          if is_some (lookup ep rest) && not (is_current current ep)
          then none
          else lookup ep w.packet_buffers)

pub close_stale-Closed :
    (current : GoMap AddrPort Bool) (rest : GoMap AddrPort Subscription) (w : Watch)
    → IsValid w
    → HasUniqueKeys rest
    → ((ep : AddrPort) (s : Subscription)
        → lookup ep rest ≡ some s
        → lookup ep w.packet_subs ≡ some s)
    → (w' : Watch) × (close_stale current rest w ≡ some w') × Closed current rest w w'
unfolding close_stale
close_stale-Closed current [] w v u f =
    (w, refl, record { valid = v; subs_left = λ ep. refl; buffers_left = λ ep. refl })
close_stale-Closed current ((ep, sub) ∷ rest) w v u f =
    let here : lookup ep w.packet_subs ≡ some sub =
      f ep sub (ground (arith, endpoint_beq_iff ep ep)) in
    elim (Bool-cases (is_current current ep)) [
      | inl stays ↦
          let (w', e, c) =
            close_stale-Closed current rest w v u.1
              (λ q s g. f q s (ground (arith, endpoint_beq_iff ep q, u.0))) in
          (
            w',
            ground arith,
            record {
              valid = c.valid;
              subs_left = λ q. ground (arith, c.subs_left q, endpoint_beq_iff ep q);
              buffers_left = λ q. ground (arith, c.buffers_left q, endpoint_beq_iff ep q);
            },
          )
      | inr goes ↦
          let next = closed_at ep sub w in
          let (w', e, c) =
            close_stale-Closed current rest next (closed_at-IsValid ep sub w v here) u.1 (λ q s g.
              ground
                (arith, f q s, endpoint_beq_iff ep q, u.0, lookup-delete ep q w.packet_subs)) in
          (
            w',
            ground (arith, unsubscribe-open w.subs sub w.channels, v.live ep sub here),
            record {
              valid = c.valid;
              subs_left = λ q.
                  ground
                    (arith, c.subs_left q, endpoint_beq_iff ep q, lookup-delete ep q w.packet_subs);
              buffers_left = λ q. ground (
                arith,
                c.buffers_left q,
                endpoint_beq_iff ep q,
                lookup-delete ep q w.packet_buffers,
              );
            },
          )
    ]

-- What the opening loop does when it has these keys to go.
pub record Opened (rest : GoMap AddrPort Bool) (w w' : Watch) : Type 0 where
  pub valid : IsValid w'
  pub watched :
      (ep : AddrPort)
      → is_some (lookup ep w'.packet_subs)
        ≡ (is_some (lookup ep w.packet_subs) || is_some (lookup ep rest))
  pub kept :
      (ep : AddrPort) (s : Subscription)
      → lookup ep w.packet_subs ≡ some s
      → (lookup ep w'.packet_subs ≡ some s)
        × (lookup ep w'.packet_buffers ≡ lookup ep w.packet_buffers)

pub open_new-Opened :
    (rest : GoMap AddrPort Bool) (w : Watch) → IsValid w → Opened rest w (open_new rest w)
unfolding open_new watch_endpoint subscribe
open_new-Opened [] w v = record {
  valid = v;
  watched = λ ep. ground arith;
  kept = λ ep s e. (e, refl);
}
open_new-Opened ((ep, b) ∷ rest) w v = elim (Option-cases (lookup ep w.packet_subs)) [
  | inr (sub, there) ↦ rw there (
      let c = open_new-Opened rest w v in
      record {
        valid = c.valid;
        watched = λ q. ground (arith, c.watched q, endpoint_beq_iff ep q);
        kept = c.kept;
      })
  | inl missing ↦ rw missing (
      let sub : Subscription = record { ch = w.next; target = ep } in
      let c = open_new-Opened rest (watch_endpoint ep w) (watch_endpoint-IsValid ep w v missing) in
      record {
        valid = c.valid;
        watched = λ q.
            ground (arith, c.watched q, endpoint_beq_iff ep q, lookup-put ep q sub w.packet_subs);
        kept = λ q s e. ground (
          arith,
          c.kept q s,
          endpoint_beq_iff ep q,
          lookup-put ep q sub w.packet_subs,
          lookup-put ep q w.next w.packet_buffers,
        );
      })
]
