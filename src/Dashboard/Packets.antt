-- ===== src/Dashboard/Packets.antt =====
-- internal/dashboard/packets.go: which packets `servePackets` writes. The buffer is shared with the
-- capture: `early` are the packets that it adds after `Subscribe` and before the copy of `Snapshot`, and
-- `late` those that it adds afterwards, before the handler first receives. `none` is a panic.
mod Stream
mod Tests
use localproxy.Base.{ℕ, List, [], ◌∷◌, ◌++◌, Option, none, some}
use localproxy.Base.Channel.{Channels}
use localproxy.Tshark.Packet.{Packet}
use localproxy.Tshark.Buffer.{PacketBuffer, snapshot, subscribe}
use localproxy.Tshark.Buffer.Subscribers.{add_all}

-- The loop over the snapshot: `writePacketEvent` panics at a `nil` packet.
pub write_all : List (Option Packet) → Option (List Packet)
write_all [] = some []
write_all (none ∷ slots) = none
write_all (some pkt ∷ slots) = elim (write_all slots) [
  | none ↦ none
  | some written ↦ some (pkt ∷ written)
]

-- What is written, the snapshot and then what waits on the channel; and the buffer and the channels.
pub serve_packets :
    PacketBuffer
    → ℕ
    → List Packet
    → List Packet
    → Channels Packet
    → Option (List Packet × PacketBuffer × Channels Packet)
unfolding write_all
serve_packets b ch early late h =
    let (joined, opened) = subscribe b ch h in
    elim (add_all joined early opened) [
      | none ↦ none
      | some (b', h') ↦ elim (add_all b' late h') [
        | none ↦ none
        | some (b'', h'') ↦ elim (write_all (snapshot b')) [
          | none ↦ none
          | some written ↦ some (written ++ (h'' ch).queue, b'', h'')
        ]
      ]
    ]
