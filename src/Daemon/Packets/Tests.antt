-- ===== src/Daemon/Packets/Tests.antt =====
-- The subscriptions of the daemon on a small state, and the theorem at a concrete input.
use localproxy.Base.{ℕ, ◌≡◌, refl, codes, [], ◌∷◌, none, some, true, is_some, arith}
use localproxy.Base.GoMap.{lookup}
use localproxy.Base.Channel.{make_chan}
use localproxy.Net.{AddrPort, loopback, endpoint_eq, endpoint_beq_iff}
use localproxy.Discovery.Types.{from_process}
use localproxy.Proxy.Route.{plain_route}
use localproxy.Dashboard.Backend.{Backend, plain_backend}
use localproxy.Tshark.Buffer.{new_of_size}
use localproxy.Tshark.Capture.{Subscription}
use localproxy.Daemon.Packets.{Watch, update_packet_subscriptions}
use localproxy.Daemon.Packets.Endpoints.{IsValid, is_enabled}
use localproxy.Daemon.Packets.Ended.{update_packet_subscriptions-ended}
use localproxy.Daemon.Packets.Update.{update_packet_subscriptions_lem}

abbrev endpoint : ℕ → AddrPort
endpoint port = record { ip = loopback; port = port }

abbrev backend : ℕ → Backend
backend port = plain_backend (plain_route (codes "web") (endpoint port)) from_process

-- One endpoint is watched.
abbrev watch : Watch
watch = record {
  packet_subs = (endpoint 3000, record { ch = 0; target = endpoint 3000 }) ∷ [];
  packet_buffers = (endpoint 3000, 0) ∷ [];
  subs = (endpoint 3000, record { ch = 0; target = endpoint 3000 } ∷ []) ∷ [];
  channels = λ c. make_chan 64;
  buffers = λ a. new_of_size 1000;
  next = 1;
}

watch-IsValid : IsValid watch
watch-IsValid = record {
  unique = (refl, tt);
  live = λ ep s e. ground arith;
  apart = λ ep other s t e f same.
      ground (arith, endpoint_beq_iff (endpoint 3000) ep, endpoint_beq_iff (endpoint 3000) other);
}

update_packet_subscriptions_lem_example :
    (w' : Watch) × (update_packet_subscriptions (backend 3000 ∷ backend 3001 ∷ []) watch ≡ some w')
    × IsValid w'
    × ((ep : AddrPort)
        → is_some (lookup ep w'.packet_subs) ≡ is_enabled (backend 3000 ∷ backend 3001 ∷ []) ep)
    × ((ep : AddrPort) (s : Subscription)
        → lookup ep watch.packet_subs ≡ some s
        → is_enabled (backend 3000 ∷ backend 3001 ∷ []) ep ≡ true
        → (lookup ep w'.packet_subs ≡ some s)
          × (lookup ep w'.packet_buffers ≡ lookup ep watch.packet_buffers))
update_packet_subscriptions_lem_example =
    update_packet_subscriptions_lem (backend 3000 ∷ backend 3001 ∷ []) watch watch-IsValid

-- The same endpoint, after the capture has closed its channel.
abbrev ended : Watch
ended = record watch { channels = λ c. record { queue = []; room = 64; closed = true } }

update_packet_subscriptions-ended_example : update_packet_subscriptions [] ended ≡ none
unfolding is_enabled
update_packet_subscriptions-ended_example =
    update_packet_subscriptions-ended [] ended (endpoint 3000)
      (record { ch = 0; target = endpoint 3000 }) (refl, tt) (λ q t e. refl)
      (ground (arith, endpoint_beq_iff (endpoint 3000) (endpoint 3000))) refl
