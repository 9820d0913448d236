-- ===== src/Tshark/Buffer/History.antt =====
-- The packet buffer against its history: what `Snapshot` and `Get` answer after any adds.
use localproxy.Base.{
  ℕ, zero, suc, ◌+◌, ◌-◌, ◌<◌, ◌≡◌, refl, sym, ap, ◌∙◌, List, [], ◌∷◌, ◌++◌, append_assoc, none,
  some, map, length, length-replicate, if◌then◌else◌, nat_beq, arith, append-nil, drop, ap₂,
  length-map,
}
use localproxy.Base.Recent.{last_n, last_n-append}
use localproxy.Tshark.Packet.{Packet}
use localproxy.Tshark.Buffer.{
  PacketBuffer, Found, hit, miss, new_of_size, store_packet, snapshot_from, snapshot, get_from, get,
}
use localproxy.Tshark.Buffer.Window.{
  IsValid, store_packet-IsValid, snapshot-store_packet, store_packet_keeps, length-snapshot,
}

-- The buffer after packets in the order of their adds.
unfoldable pub store_all : PacketBuffer → List Packet → PacketBuffer
store_all b [] = b
store_all b (p ∷ ps) = store_all (store_packet b p) ps

pub store_all-IsValid : (b : PacketBuffer) (ps : List Packet) → IsValid b → IsValid (store_all b ps)
unfolding store_all
store_all-IsValid b [] v = v
store_all-IsValid b (p ∷ ps) v = store_all-IsValid (store_packet b p) ps (store_packet-IsValid p v)

-- A snapshot never shows more than `size` packets.
snapshot_small : {b : PacketBuffer} → IsValid b → snapshot b ≡ last_n b.size (snapshot b)
snapshot_small {b} v =
    ap (λ k. drop k (snapshot b)) {x = 0} (omega (arith, length-snapshot b, v.count_in))

-- Started from any valid buffer, a snapshot shows the last `size` of what was there and was added.
pub snapshot-store_all :
    (b : PacketBuffer) (ps : List Packet)
    → IsValid b
    → snapshot (store_all b ps) ≡ last_n b.size (snapshot b ++ map some ps)
unfolding store_all
snapshot-store_all b [] v = snapshot_small v ∙ ap (last_n b.size) (sym (append-nil (snapshot b)))
snapshot-store_all b (p ∷ ps) v =
    let next = some p ∷ [] in
    let same : (store_packet b p).size ≡ b.size = (store_packet_keeps b p).0 in
    snapshot-store_all (store_packet b p) ps (store_packet-IsValid p v)
    ∙ ap₂ (λ n xs. last_n n (xs ++ map some ps)) same (snapshot-store_packet p v)
    ∙ last_n-append b.size (snapshot b ++ next) (map some ps)
    ∙ ap (last_n b.size) (append_assoc (snapshot b) next (map some ps))

pub new_of_size-IsValid : (n : ℕ) → 0 < n → IsValid (new_of_size n)
new_of_size-IsValid n h = record {
  slots = length-replicate n none;
  roomy = h;
  head_in = h;
  count_in = omega arith;
}

-- The first packet of a list with a number.
unfoldable pub find_number : ℕ → List Packet → Found
find_number number [] = miss
find_number number (p ∷ ps) = if nat_beq p.number number then hit p else find_number number ps

-- `Get` walks what `Snapshot` copies.
get_from-snapshot_from :
    (b : PacketBuffer) (number i n : ℕ) (ps : List Packet)
    → snapshot_from b i n ≡ map some ps
    → get_from b number i n ≡ find_number number ps
unfolding get_from snapshot_from find_number
get_from-snapshot_from b number i zero [] h = refl
get_from-snapshot_from b number i zero (p ∷ ps) h = cc
get_from-snapshot_from b number i (suc n) [] h = cc
get_from-snapshot_from b number i (suc n) (p ∷ ps) h =
    ground (arith, get_from-snapshot_from b number (i + 1) n ps)

drop-map : (k : ℕ) (ps : List Packet) → drop k (map some ps) ≡ map some (drop k ps)
drop-map zero ps = refl
drop-map (suc k) [] = refl
drop-map (suc k) (p ∷ ps) = drop-map k ps

pub last_n-map : (n : ℕ) (ps : List Packet) → last_n n (map some ps) ≡ map some (last_n n ps)
last_n-map n ps = rw (length-map ps some) (drop-map (length ps - n) ps)

-- A snapshot of a new buffer after any packets is the last `n` of them, oldest first.
pub snapshot-new :
    (n : ℕ) (ps : List Packet)
    → 0 < n
    → snapshot (store_all (new_of_size n) ps) ≡ map some (last_n n ps)
unfolding snapshot snapshot_from
snapshot-new n ps h =
    snapshot-store_all (new_of_size n) ps (new_of_size-IsValid n h) ∙ last_n-map n ps

-- `Get` finds the oldest of the last `n` packets with the number, and never meets a `nil` slot.
pub get-new :
    (n : ℕ) (ps : List Packet) (number : ℕ)
    → 0 < n
    → get (store_all (new_of_size n) ps) number ≡ find_number number (last_n n ps)
unfolding get snapshot
get-new n ps number h =
    let b = store_all (new_of_size n) ps in
    get_from-snapshot_from b number 0 b.count (last_n n ps) (snapshot-new n ps h)
