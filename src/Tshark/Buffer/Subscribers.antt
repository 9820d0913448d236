-- ===== src/Tshark/Buffer/Subscribers.antt =====
-- The live subscribers of the packet buffer: what their channels receive.
use localproxy.Base.{
  ℕ, ◌≡◌, ◌∙◌, refl, ap, List, [], ◌∷◌, ◌++◌, Option, none, some, Bool, true, false, ◌||◌,
  if◌then◌else◌, nat_beq, nat_beq_iff, take, arith,
}
use localproxy.Base.Channel.{
  Chan, Channels, make_chan, store_chan, accept, accept_all, offer-open, closed-accept,
  queue-accept_all,
}
use localproxy.Tshark.Packet.{Packet}
use localproxy.Tshark.Buffer.{
  PacketBuffer, store_packet, send_all, add, subscribe, cut_first, unsubscribe,
}
use localproxy.Tshark.Buffer.Window.{store_packet_keeps}
use localproxy.Tshark.Buffer.History.{store_all}

abbrev pub has : List ℕ → ℕ → Bool
has [] c = false
has (d ∷ subs) c = nat_beq d c || has subs c

-- The channels are open, and none stands twice in the slice.
abbrev pub AllLive : Channels Packet → List ℕ → Type 0
AllLive h [] = Unit {0}
AllLive h (c ∷ subs) = ((h c).closed ≡ false) × (has subs c ≡ false) × AllLive h subs

abbrev Sent : List ℕ → Packet → Channels Packet → Channels Packet → Type 0
Sent subs p h h' = (c : ℕ) → h' c ≡ (if has subs c then accept p (h c) else h c)

-- Liveness depends on the flags alone.
AllLive-ext :
    (h h' : Channels Packet) (subs : List ℕ)
    → ((c : ℕ) → (h' c).closed ≡ (h c).closed)
    → AllLive h subs
    → AllLive h' subs
AllLive-ext h h' [] e v = tt
AllLive-ext h h' (c ∷ subs) e v = (e c ∙ v.0, v.1, AllLive-ext h h' subs e v.2)

closed-store_accept :
    (h : Channels Packet) (c : ℕ) (p : Packet) (d : ℕ)
    → (store_chan h c (accept p (h c)) d).closed ≡ (h d).closed
closed-store_accept h c p d = ground (arith, nat_beq_iff c d, closed-accept p (h c))

send_all-cons :
    (c : ℕ) (subs : List ℕ) (p : Packet) (h : Channels Packet)
    → (h c).closed ≡ false
    → send_all (c ∷ subs) p h ≡ send_all subs p (store_chan h c (accept p (h c)))
unfolding send_all
send_all-cons c subs p h o = ground (arith, offer-open p (h c))

send_all-Sent :
    (subs : List ℕ) (p : Packet) (h : Channels Packet)
    → AllLive h subs
    → (h' : Channels Packet) × (send_all subs p h ≡ some h') × Sent subs p h h'
unfolding send_all
send_all-Sent [] p h v = (h, refl, λ c. refl)
send_all-Sent (c ∷ subs) p h v =
    let mid = store_chan h c (accept p (h c)) in
    let live = AllLive-ext h mid subs (closed-store_accept h c p) v.2 in
    let (h', e, q) = send_all-Sent subs p mid live in
    (h', send_all-cons c subs p h v.0 ∙ e, λ d. ground (arith, q d, v.1, nat_beq_iff c d))

-- The buffer and the channels after packets in the order of their adds.
unfoldable pub add_all :
    PacketBuffer → List Packet → Channels Packet → Option (PacketBuffer × Channels Packet)
add_all b [] h = some (b, h)
add_all b (p ∷ ps) h = elim (add b p h) [ none ↦ none | some r ↦ add_all r.0 ps r.1 ]

add_all-cons :
    (b : PacketBuffer) (p : Packet) (ps : List Packet) (h mid : Channels Packet)
    → send_all b.subs p h ≡ some mid
    → add_all b (p ∷ ps) h ≡ add_all (store_packet b p) ps mid
unfolding add_all add
add_all-cons b p ps h mid e = ground arith

-- With the subscribed channels open, adds do not panic, and each of these channels is offered every
-- packet in order; no other channel changes.
pub add_all-Sent :
    (b : PacketBuffer) (ps : List Packet) (h : Channels Packet)
    → AllLive h b.subs
    → (h' : Channels Packet) × (add_all b ps h ≡ some (store_all b ps, h'))
      × ((c : ℕ) → h' c ≡ (if has b.subs c then accept_all ps (h c) else h c))
unfolding add_all store_all accept_all
add_all-Sent b [] h v = (h, refl, λ c. ground arith)
add_all-Sent b (p ∷ ps) h v =
    let (mid, e, q) = send_all-Sent b.subs p h v in
    let b' = store_packet b p in
    let same : b'.subs ≡ b.subs = (store_packet_keeps b p).1 in
    let flags : (c : ℕ) → (mid c).closed ≡ (h c).closed =
      λ c. ground (arith, q c, closed-accept p (h c)) in
    let live : AllLive mid b'.subs = rw same (AllLive-ext h mid b.subs flags v) in
    let (h', f, r) = add_all-Sent b' ps mid live in
    (h', add_all-cons b p ps h mid e ∙ f, (λ c. ground (arith, r c, q c, ap (λ s. has s c) same)))

has-append : (subs : List ℕ) (c : ℕ) → has (subs ++ (c ∷ [])) c ≡ true
has-append [] c = ground (arith, nat_beq_iff c c)
has-append (d ∷ subs) c = ground (arith, has-append subs c)

AllLive-append :
    (h : Channels Packet) (subs : List ℕ) (c : ℕ)
    → (h c).closed ≡ false
    → has subs c ≡ false
    → AllLive h subs
    → AllLive h (subs ++ (c ∷ []))
AllLive-append h [] c o f v = (o, refl, tt)
AllLive-append h (d ∷ subs) c o f v = (
  v.0,
  ground (arith, has-snoc subs c d, v.1, nat_beq_iff c d, nat_beq_iff d c),
  AllLive-append h subs c o (ground arith) v.2,
)
  where
    has-snoc : (subs : List ℕ) (c d : ℕ) → has (subs ++ (c ∷ [])) d ≡ (has subs d || nat_beq c d)
    has-snoc [] c d = ground arith
    has-snoc (s ∷ subs) c d = ground (arith, has-snoc subs c d)

AllLive-store :
    (h : Channels Packet) (c : ℕ) (ch : Chan Packet) (subs : List ℕ)
    → has subs c ≡ false
    → AllLive h subs
    → AllLive (store_chan h c ch) subs
AllLive-store h c ch [] n v = tt
AllLive-store h c ch (d ∷ subs) n v = ground (arith, AllLive-store h c ch subs)

-- A subscriber that joins on a new channel and receives nothing has exactly the first 64 packets added
-- since it joined, in order; the adds do not panic, and the buffer stores every packet all the same.
pub subscribe-add_all :
    (b : PacketBuffer) (c : ℕ) (ps : List Packet) (h : Channels Packet)
    → AllLive h b.subs
    → has b.subs c ≡ false
    → let (joined, opened) = subscribe b c h in
      (h' : Channels Packet) × (add_all joined ps opened ≡ some (store_all joined ps, h'))
      × ((h' c).queue ≡ take 64 ps)
unfolding subscribe
subscribe-add_all b c ps h v fresh =
    let opened = store_chan h c (make_chan 64) in
    let joined : PacketBuffer = record b { subs = b.subs ++ (c ∷ []) } in
    let new : opened c ≡ make_chan 64 = ground (arith, nat_beq_iff c c) in
    let live =
      AllLive-append opened b.subs c (ap (λ ch. ch.closed) new) fresh
        (AllLive-store h c (make_chan 64) b.subs fresh v) in
    let (h', e, q) = add_all-Sent joined ps opened live in
    (h', e, ground (arith, q c, has-append b.subs c, new, queue-accept_all ps (make_chan 64)))

cut_first-append :
    (c : ℕ) (subs : List ℕ) → has subs c ≡ false → cut_first c (subs ++ (c ∷ [])) ≡ subs
unfolding cut_first
cut_first-append c [] f = ground (arith, nat_beq_iff c c)
cut_first-append c (d ∷ subs) f = ground (arith, cut_first-append c subs)

-- To leave again restores the subscribers.
pub unsubscribe_restores :
    (b : PacketBuffer) (c : ℕ) (h : Channels Packet)
    → has b.subs c ≡ false
    → unsubscribe (subscribe b c h).0 c ≡ b
unfolding unsubscribe subscribe
unsubscribe_restores b c h f = ap (λ s. record b { subs = s }) (cut_first-append c b.subs f)
