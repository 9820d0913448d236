-- ===== src/Dashboard/Packets/Tests.antt =====
-- A viewer of a small buffer, and the theorem at a concrete input.
use localproxy.Base.{ℕ, ◌≡◌, refl, [], ◌∷◌, some, arith}
use localproxy.Base.Channel.{Channels, make_chan}
use localproxy.Tshark.Packet.{Packet, bare_packet}
use localproxy.Tshark.Buffer.{PacketBuffer, new_of_size, snapshot, snapshot_from, store_packet}
use localproxy.Tshark.Buffer.History.{store_all, store_all-IsValid, new_of_size-IsValid}
use localproxy.Dashboard.Packets.{serve_packets}
use localproxy.Dashboard.Packets.Stream.{serve_packets_lem}

abbrev numbered : ℕ → Packet
numbered n = record (bare_packet []) { number = n }

-- A buffer of two slots that holds one packet.
abbrev buffer : PacketBuffer
buffer = store_all (new_of_size 2) (numbered 1 ∷ [])

abbrev idle_channels : Channels Packet
idle_channels = λ c. make_chan 64

-- The packets 2 and 3 are added before the copy, and are written twice.
serve_packets_lem_example :
    (b' : PacketBuffer) × (h' : Channels Packet) × (serve_packets buffer 9
        (numbered 2 ∷ numbered 3 ∷ [])
        (numbered 4 ∷ [])
        idle_channels
      ≡ some (numbered 2 ∷ numbered 3 ∷ numbered 2 ∷ numbered 3 ∷ numbered 4 ∷ [], b', h'))
unfolding store_all store_packet snapshot snapshot_from
serve_packets_lem_example =
    serve_packets_lem buffer 9 (numbered 1 ∷ []) (numbered 2 ∷ numbered 3 ∷ []) (numbered 4 ∷ [])
      idle_channels
      (store_all-IsValid (new_of_size 2) (numbered 1 ∷ []) (new_of_size-IsValid 2 (omega arith)))
      refl tt refl
