-- ===== src/Dashboard/Packets/Stream.antt =====
-- What a viewer of `servePackets` is written.
use localproxy.Base.{
  ℕ, zero, suc, ◌+◌, ◌≡◌, refl, sym, ap, ◌∙◌, List, [], ◌∷◌, ◌++◌, map, take, false, none, some,
  arith, Option-cases, inl, inr, get_or,
}
use mathlib.Core.List.{map-append}
use localproxy.Base.Recent.{last_n}
use localproxy.Base.Channel.{Channels}
use localproxy.Tshark.Packet.{Packet}
use localproxy.Tshark.Buffer.{PacketBuffer, index, add, snapshot, snapshot_from, subscribe}
use localproxy.Tshark.Buffer.Window.{IsValid}
use localproxy.Tshark.Buffer.History.{store_all, snapshot-store_all, last_n-map}
use localproxy.Tshark.Buffer.Subscribers.{add_all, AllLive, has, subscribe-add_all}
use localproxy.Dashboard.Packets.{write_all, serve_packets}

add_all-append :
    (b : PacketBuffer) (ps qs : List Packet) (h : Channels Packet) (b' : PacketBuffer)
    (h' : Channels Packet)
    → add_all b ps h ≡ some (b', h')
    → add_all b (ps ++ qs) h ≡ add_all b' qs h'
unfolding add_all
add_all-append b [] qs h b' h' e = ap (λ r. elim r [ none ↦ none | some s ↦ add_all s.0 qs s.1 ]) e
add_all-append b (p ∷ ps) qs h b' h' e = elim (Option-cases (add b p h)) [
  | inl bad ↦ absurd (ground (arith, e, bad))
  | inr (r, f) ↦
      let later : add_all r.0 ps r.1 ≡ some (b', h') = rw (add_all, f) at e in
      rw (add_all, f) (add_all-append r.0 ps qs r.1 b' h' later)
]

-- The subscribers have no part in a snapshot.
snapshot_from-subs :
    (b : PacketBuffer) (subs : List ℕ) (i n : ℕ)
    → snapshot_from (record b { subs = subs }) i n ≡ snapshot_from b i n
unfolding snapshot_from
snapshot_from-subs b subs i zero = refl
snapshot_from-subs b subs i (suc n) =
    ap (λ l. get_or b.packets (index b i) none ∷ l) (snapshot_from-subs b subs (i + 1) n)

IsValid-subs : (b : PacketBuffer) (subs : List ℕ) → IsValid b → IsValid (record b { subs = subs })
IsValid-subs b subs v = record {
  slots = v.slots;
  roomy = v.roomy;
  head_in = v.head_in;
  count_in = v.count_in;
}

write_all-map : (ps : List Packet) → write_all (map some ps) ≡ some ps
unfolding write_all
write_all-map [] = refl
write_all-map (p ∷ ps) = rw (write_all-map ps) refl

-- A viewer that joins a valid buffer on a new channel, where the snapshot holds these packets and no empty
-- slot and the channels of the other subscribers are open, and that first receives after all of these adds,
-- is written the last `size` of the packets that the buffer held and of those added before the copy, and then
-- the first 64 of all that were added since it joined; and nothing panics.
pub serve_packets_lem :
    (b : PacketBuffer) (ch : ℕ) (held early late : List Packet) (h : Channels Packet)
    → IsValid b
    → snapshot b ≡ map some held
    → AllLive h b.subs
    → has b.subs ch ≡ false
    → (b' : PacketBuffer) × (h' : Channels Packet) × (serve_packets b ch early late h
        ≡ some (last_n b.size (held ++ early) ++ take 64 (early ++ late), b', h'))
unfolding serve_packets subscribe snapshot
serve_packets_lem b ch held early late h v filled live fresh =
    let joined : PacketBuffer = record b { subs = b.subs ++ (ch ∷ []) } in
    let opened = (subscribe b ch h).1 in
    let first = subscribe-add_all b ch early h live fresh in
    let both = subscribe-add_all b ch (early ++ late) h live fresh in
    let mid = store_all joined early in
    let more : add_all mid late first.0 ≡ some (store_all joined (early ++ late), both.0) =
      sym (add_all-append joined early late opened mid first.0 first.1) ∙ both.1 in
    let shown : snapshot mid ≡ map some (last_n b.size (held ++ early)) =
      snapshot-store_all joined early (IsValid-subs b (b.subs ++ (ch ∷ [])) v)
      ∙ ap (λ l. last_n b.size (l ++ map some early))
          (snapshot_from-subs b (b.subs ++ (ch ∷ [])) 0 b.count ∙ filled)
      ∙ ap (last_n b.size) (sym (map-append some held early))
      ∙ last_n-map b.size (held ++ early) in
    let written : write_all (snapshot mid) ≡ some (last_n b.size (held ++ early)) =
      ap write_all shown ∙ write_all-map (last_n b.size (held ++ early)) in
    (
      store_all joined (early ++ late),
      both.0,
      rw (serve_packets, first.1, more, written)
          (ap
            (λ l.
              some (last_n b.size (held ++ early) ++ l, store_all joined (early ++ late), both.0))
            both.2),
    )
