-- ===== src/Tshark/Buffer.antt =====
-- pkg/tshark/buffer.go: the ring of recent packets and its live subscribers. The two mutexes make
-- each method one step. `none` is a panic.
pub mod Window
pub mod History
pub mod Subscribers
use localproxy.Base.{
  ℕ, zero, suc, ◌+◌, ◌%◌, ◌≡◌, List, [], ◌∷◌, ◌++◌, Option, none, some, Bool, if◌then◌else◌, length,
  get_or, set, replicate, nat_beq, map,
}
use localproxy.Base.Channel.{Chan, Channels, make_chan, store_chan, offer}
use localproxy.Tshark.Packet.{Packet}

abbrev pub default_buffer_size : ℕ
default_buffer_size = 1000

-- A slot holds `nil` until it is written. `subs` holds the addresses of the channels.
pub record PacketBuffer : Type 0 where
  pub packets : List (Option Packet)
  pub head : ℕ
  pub count : ℕ
  pub size : ℕ
  pub subs : List ℕ

-- `NewPacketBuffer` at a given size; the source has it at `default_buffer_size` alone.
abbrev pub new_of_size : ℕ → PacketBuffer
new_of_size n = record { packets = replicate n none; head = 0; count = 0; size = n; subs = [] }

pub new_packet_buffer : PacketBuffer
new_packet_buffer = new_of_size default_buffer_size

abbrev pub index : PacketBuffer → ℕ → ℕ
index b i = (b.head + i) % b.size

-- The part of `Add` under `mu`.
unfoldable pub store_packet : PacketBuffer → Packet → PacketBuffer
store_packet b pkt =
    let idx = index b b.count in
    let moved : PacketBuffer =
      if nat_beq b.count b.size
      then record b { head = index b 1 }
      else record b { count = b.count + 1 } in
    record moved { packets = set b.packets idx (some pkt) }

-- The part of `Add` under `subsMu`: a channel that is full misses the packet.
pub send_all : List ℕ → Packet → Channels Packet → Option (Channels Packet)
send_all [] pkt h = some h
send_all (c ∷ cs) pkt h = elim (offer pkt (h c)) [
  | none ↦ none
  | some ch ↦ send_all cs pkt (store_chan h c ch)
]

pub add : PacketBuffer → Packet → Channels Packet → Option (PacketBuffer × Channels Packet)
add b pkt h = elim (send_all b.subs pkt h) [ none ↦ none | some h' ↦ some (store_packet b pkt, h') ]

-- The loop of `Snapshot` from index `i`, with `n` rounds to go.
unfoldable pub snapshot_from : PacketBuffer → ℕ → ℕ → List (Option Packet)
snapshot_from b i zero = []
snapshot_from b i (suc n) = get_or b.packets (index b i) none ∷ snapshot_from b (i + 1) n

unfoldable pub snapshot : PacketBuffer → List (Option Packet)
snapshot b = snapshot_from b 0 b.count

-- The result of `Get`: a packet, no packet, or the panic of `pkt.Number` at a `nil` slot.
pub data Found : Type 0 where
  hit : Packet → Found
  miss nil_panic : Found

-- The loop of `Get` from index `i`, with `n` rounds to go.
pub get_from : PacketBuffer → ℕ → ℕ → ℕ → Found
get_from b number i zero = miss
get_from b number i (suc n) =
    let rest = get_from b number (i + 1) n in
    elim (get_or b.packets (index b i) none) [
      | none ↦ nil_panic
      | some pkt ↦ if nat_beq pkt.number number then hit pkt else rest
    ]

pub get : PacketBuffer → ℕ → Found
get b number = get_from b number 0 b.count

-- `Subscribe`, with the address at which `make` puts the channel.
unfoldable pub subscribe : PacketBuffer → ℕ → Channels Packet → PacketBuffer × Channels Packet
subscribe b c h = (record b { subs = b.subs ++ (c ∷ []) }, store_chan h c (make_chan 64))

-- The slice without the first `ch`, as the loop of `Unsubscribe` cuts it.
pub cut_first : ℕ → List ℕ → List ℕ
cut_first ch [] = []
cut_first ch (sub ∷ subs) = if nat_beq sub ch then subs else sub ∷ cut_first ch subs

pub unsubscribe : PacketBuffer → ℕ → PacketBuffer
unsubscribe b ch = record b { subs = cut_first ch b.subs }
