-- ===== src/Tshark/Tests.antt =====
-- Runs of the packet buffer and of a capture, and the theorem at a concrete input.
use localproxy.Base.{ℕ, ◌≡◌, List, [], ◌∷◌, some, arith}
use localproxy.Base.Channel.{Channels, make_chan}
use localproxy.Net.{AddrPort, loopback}
use localproxy.Tshark.Packet.{Packet, bare_packet}
use localproxy.Tshark.Buffer.{new_of_size, snapshot}
use localproxy.Tshark.Buffer.History.{store_all, snapshot-new}
use localproxy.Tshark.Capture.{Subscription, Subs}

abbrev numbered : ℕ → Packet
numbered n = record (bare_packet []) { number = n }

abbrev five : List Packet
five = numbered 1 ∷ numbered 2 ∷ numbered 3 ∷ numbered 4 ∷ numbered 5 ∷ []

snapshot-new_example :
    snapshot (store_all (new_of_size 3) five)
    ≡ some (numbered 3) ∷ some (numbered 4) ∷ some (numbered 5) ∷ []
snapshot-new_example = snapshot-new 3 five (omega arith)

abbrev idle_channels : Channels Packet
idle_channels = λ c. make_chan 64

abbrev server : AddrPort
server = record { ip = loopback; port = 5432 }

abbrev client : AddrPort
client = record { ip = loopback; port = 40000 }

abbrev watcher : Subscription
watcher = record { ch = 1; target = server }

abbrev subs : Subs
subs = (server, watcher ∷ []) ∷ []
