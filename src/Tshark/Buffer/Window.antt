-- ===== src/Tshark/Buffer/Window.antt =====
-- The invariant of the packet ring, and what one `Add` does to its snapshot.
use native.Mathlib.Nat.{mod-eq_of_lt, mod-eq-sub-mod}
use localproxy.Base.{
  ℕ, zero, suc, ◌+◌, ◌-◌, ◌%◌, ◌≤◌, ◌<◌, ◌≡◌, refl, sym, ap, ap₂, ◌∙◌, ◌≢◌, [], ◌∷◌, ◌++◌, Option,
  none, some, dec_lt, ℕ_discrete, drop, length, get_or, set, length-set, get_or-set_self,
  get_or-set_ne, arith, if◌then◌else◌, ltb, length-append,
}
use localproxy.Base.Recent.{last_n, drop-append_le}
use localproxy.Tshark.Packet.{Packet}
use localproxy.Tshark.Buffer.{PacketBuffer, index, store_packet, snapshot_from, snapshot}

pub record IsValid (b : PacketBuffer) : Type 0 where
  pub slots : length b.packets ≡ b.size
  pub roomy : 0 < b.size
  pub head_in : b.head < b.size
  pub count_in : b.count ≤ b.size

-- An index at most once round the ring.
wrap_lem : (h k n : ℕ) → h < n → k ≤ n → (h + k) % n ≡ (if ltb (h + k) n then h + k else h + k - n)
wrap_lem h k n hh hk = elim (dec_lt (h + k) n) [
  | yes p ↦ ground (arith, mod-eq_of_lt p)
  | no p ↦ ground (
    arith,
    mod-eq-sub-mod {n = h + k} {m = n} (omega arith),
    mod-eq_of_lt {n = h + k - n} {m = n} (omega arith),
  )
]

pub store_packet-IsValid : {b : PacketBuffer} (p : Packet) → IsValid b → IsValid (store_packet b p)
unfolding store_packet
store_packet-IsValid {b} p v = ground (
  arith,
  length-set b.packets (index b b.count) (some p),
  wrap_lem b.head 1 b.size v.head_in (omega arith),
)

-- The slot that `Snapshot` and `Get` read in round `k`.
abbrev pub slot : PacketBuffer → ℕ → Option Packet
slot b k = get_or b.packets (index b k) none

snapshot_from-ext :
    (b c : PacketBuffer) (i j n : ℕ)
    → ((k : ℕ) → k < n → slot b (i + k) ≡ slot c (j + k))
    → snapshot_from b i n ≡ snapshot_from c j n
unfolding snapshot_from
snapshot_from-ext b c i j zero h = refl
snapshot_from-ext b c i j (suc n) h =
    let here : slot b i ≡ slot c j = ground (arith, h 0) in
    let there : (k : ℕ) → k < n → slot b (i + 1 + k) ≡ slot c (j + 1 + k) =
      λ k hk. ground (arith, h (suc k)) in
    ap₂ ◌∷◌ here (snapshot_from-ext b c (i + 1) (j + 1) n there)

snapshot_from-snoc :
    (b : PacketBuffer) (i n : ℕ)
    → snapshot_from b i (suc n) ≡ snapshot_from b i n ++ (slot b (i + n) ∷ [])
unfolding snapshot_from
snapshot_from-snoc b i zero = ground arith
snapshot_from-snoc b i (suc n) =
    let e : i + 1 + n ≡ i + suc n = omega arith in rw (snapshot_from-snoc b (i + 1) n, e)

length-snapshot_from : (b : PacketBuffer) (i n : ℕ) → length (snapshot_from b i n) ≡ n
unfolding snapshot_from
length-snapshot_from b i zero = refl
length-snapshot_from b i (suc n) = ap suc (length-snapshot_from b (i + 1) n)

pub length-snapshot : (b : PacketBuffer) → length (snapshot b) ≡ b.count
unfolding snapshot
length-snapshot b = length-snapshot_from b 0 b.count

-- The two branches of the write.
abbrev grown : PacketBuffer → Packet → PacketBuffer
grown b p = record b { count = b.count + 1; packets = set b.packets (index b b.count) (some p) }

abbrev rotated : PacketBuffer → Packet → PacketBuffer
rotated b p = record b { head = index b 1; packets = set b.packets b.head (some p) }

module _ {b : PacketBuffer} (p : Packet) (v : IsValid b) where
  store_packet-grown : b.count ≢ b.size → store_packet b p ≡ grown b p
  unfolding store_packet
  store_packet-grown ne = ground arith

  store_packet-rotated : b.count ≡ b.size → store_packet b p ≡ rotated b p
  unfolding store_packet
  store_packet-rotated full = ground (arith, wrap_lem b.head b.size b.size v.head_in (omega arith))

  -- Each slot read lies in the storage.
  index-lt : (k : ℕ) → index b k < b.size
  index-lt k = omega (arith, v.roomy)

  index-ne : (j k : ℕ) → j < k → k < b.size → index b k ≢ index b j
  index-ne j k hj hk = ground (
    arith,
    wrap_lem b.head j b.size v.head_in (omega arith),
    wrap_lem b.head k b.size v.head_in (omega arith),
  )

  snapshot-grown : b.count ≢ b.size → snapshot (grown b p) ≡ snapshot b ++ (some p ∷ [])
  unfolding snapshot
  snapshot-grown ne =
      let n = b.count in
      let fits : n < b.size = omega arith in
      let old : (k : ℕ) → k < n → slot (grown b p) (0 + k) ≡ slot b (0 + k) =
        λ k hk. get_or-set_ne b.packets (some p) none (index-ne (0 + k) n (omega arith) fits) in
      let new : slot (grown b p) (0 + n) ≡ some p =
        ground
          (arith, get_or-set_self b.packets (index b n) (some p) none (rw v.slots (index-lt n))) in
      let e : n + 1 ≡ suc n = omega arith in
      ap (snapshot_from (grown b p) 0) e
      ∙ snapshot_from-snoc (grown b p) 0 n
      ∙ ap₂ (λ xs x. xs ++ (x ∷ [])) (snapshot_from-ext (grown b p) b 0 0 n old) new

  slot-rotated :
      b.count ≡ b.size → (k : ℕ) → k < b.size - 1 → slot (rotated b p) (0 + k) ≡ slot b (0 + 1 + k)
  slot-rotated full k hk =
      let i = index b (0 + 1 + k) in
      let same : index (rotated b p) (0 + k) ≡ i = ground (
        arith,
        wrap_lem b.head 1 b.size v.head_in (omega arith),
        wrap_lem (index b 1) k b.size (omega (arith, v.roomy)) (omega arith),
        wrap_lem b.head (0 + 1 + k) b.size v.head_in (omega arith),
      ) in
      let other : b.head ≢ i =
        ground (arith, wrap_lem b.head (0 + 1 + k) b.size v.head_in (omega arith)) in
      ap (λ j. get_or (set b.packets b.head (some p)) j none) same
      ∙ get_or-set_ne b.packets (some p) none other

  slot-rotated_last : b.count ≡ b.size → slot (rotated b p) (0 + (b.size - 1)) ≡ some p
  slot-rotated_last full =
      let last : index (rotated b p) (0 + (b.size - 1)) ≡ b.head = ground (
        arith,
        v.roomy,
        wrap_lem b.head 1 b.size v.head_in (omega arith),
        wrap_lem (index b 1) (0 + (b.size - 1)) b.size (omega (arith, v.roomy)) (omega arith),
      ) in
      ap (λ j. get_or (set b.packets b.head (some p)) j none) last
      ∙ get_or-set_self b.packets b.head (some p) none (omega (arith, v.slots, v.head_in))

  snapshot-rotated :
      b.count ≡ b.size → snapshot (rotated b p) ≡ drop 1 (snapshot b) ++ (some p ∷ [])
  unfolding snapshot snapshot_from
  snapshot-rotated full =
      let n = b.size - 1 in
      let e : b.count ≡ suc n = omega (arith, v.roomy) in
      ap (snapshot_from (rotated b p) 0) e
      ∙ snapshot_from-snoc (rotated b p) 0 n
      ∙ ap₂ (λ xs x. xs ++ (x ∷ []))
          (snapshot_from-ext (rotated b p) b 0 (0 + 1) n (slot-rotated full)
            ∙ sym (ap (λ m. drop 1 (snapshot_from b 0 m)) e))
          (slot-rotated_last full)

  -- After the write a snapshot shows the last `size` of what it showed and the new packet.
  pub snapshot-store_packet :
      snapshot (store_packet b p) ≡ last_n b.size (snapshot b ++ (some p ∷ []))
  snapshot-store_packet =
      let next = some p ∷ [] in
      let all = snapshot b ++ next in
      let len : length (snapshot b ++ next) ≡ b.count + 1 =
        omega (arith, length-append (snapshot b) next, length-snapshot b) in
      elim (ℕ_discrete b.count b.size) [
        | yes full ↦
            ap snapshot (store_packet-rotated full)
            ∙ snapshot-rotated full
            ∙ sym (drop-append_le 1 (snapshot b) next (omega (arith, v.roomy, length-snapshot b)))
            ∙ ap (λ k. drop k all) {x = 1} (omega arith)
        | no ne ↦
            ap snapshot (store_packet-grown ne)
            ∙ snapshot-grown ne
            ∙ ap (λ k. drop k all) {x = 0} (omega arith)
      ]

-- The store leaves the size and the subscribers alone.
pub store_packet_keeps :
    (b : PacketBuffer) (p : Packet)
    → ((store_packet b p).size ≡ b.size) × ((store_packet b p).subs ≡ b.subs)
unfolding store_packet
store_packet_keeps b p = ground arith
