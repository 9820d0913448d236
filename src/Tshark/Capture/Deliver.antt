-- ===== src/Tshark/Capture/Deliver.antt =====
-- What one `deliver` sends, and to whom.
use localproxy.Base.{
  ℕ, ◌≡◌, ◌∙◌, refl, inl, inr, List, [], ◌∷◌, none, some, Bool, true, false, not, ◌&&◌, ◌||◌,
  if◌then◌else◌, nat_beq, nat_beq_iff, Bool-cases, nat_eq, arith,
}
use localproxy.Base.GoMap.{GoMap, lookup, put, lookup-put}
use localproxy.Base.Channel.{Channels, store_chan, accept, offer-open, closed-accept}
use localproxy.Net.{AddrPort, endpoint_eq, is_valid}
use localproxy.Tshark.Packet.{Packet}
use localproxy.Tshark.Capture.{
  Subscription, Subs, Discovering, watchers, is_discovering, deliver_subs, deliver_targets, deliver,
}

-- Whether a channel belongs to one of the subscriptions.
abbrev pub owns : ℕ → List Subscription → Bool
owns c [] = false
owns c (s ∷ subs) = nat_beq s.ch c || owns c subs

-- The channels of the subscriptions are open.
abbrev pub AllOpen : Channels Packet → List Subscription → Type 0
AllOpen h subs = (c : ℕ) → owns c subs ≡ true → (h c).closed ≡ false

abbrev was_sent : GoMap ℕ Bool → ℕ → Bool
was_sent sent c = elim (lookup c sent) [ none ↦ false | some b ↦ b ]

record Delivered (subs : List Subscription) (pkt : Packet) (h : Channels Packet)
    (sent : GoMap ℕ Bool) (h' : Channels Packet) (sent' : GoMap ℕ Bool) : Type 0 where
  queues : (c : ℕ) → h' c ≡ (if owns c subs && not (was_sent sent c) then accept pkt (h c) else h c)
  marks : (c : ℕ) → was_sent sent' c ≡ (was_sent sent c || owns c subs)

module _ (s : Subscription) (subs : List Subscription) (pkt : Packet) (h : Channels Packet)
    (sent : GoMap ℕ Bool) where
  deliver_subs-skip :
      was_sent sent s.ch ≡ true → deliver_subs (s ∷ subs) pkt h sent ≡ deliver_subs subs pkt h sent
  unfolding deliver_subs
  deliver_subs-skip e = ground arith

  deliver_subs-send :
      was_sent sent s.ch ≡ false
      → (h s.ch).closed ≡ false
      → deliver_subs (s ∷ subs) pkt h sent
        ≡ deliver_subs subs pkt (store_chan h s.ch (accept pkt (h s.ch))) (put s.ch true sent)
  unfolding deliver_subs
  deliver_subs-send e o = ground (arith, offer-open pkt (h s.ch))

  AllOpen-tail : AllOpen h (s ∷ subs) → AllOpen h subs
  AllOpen-tail o c e = ground (arith, o c)

  AllOpen-store : AllOpen h (s ∷ subs) → AllOpen (store_chan h s.ch (accept pkt (h s.ch))) subs
  AllOpen-store o c e = ground (arith, o c, closed-accept pkt (h s.ch), o s.ch)

  Delivered-skip :
      was_sent sent s.ch ≡ true
      → (h' : Channels Packet) (sent' : GoMap ℕ Bool) → Delivered subs pkt h sent h' sent'
      → Delivered (s ∷ subs) pkt h sent h' sent'
  Delivered-skip e h' sent' d = record {
    queues = λ c. ground (arith, d.queues c);
    marks = λ c. ground (arith, d.marks c);
  }

  Delivered-send :
      was_sent sent s.ch ≡ false
      → (h' : Channels Packet) (sent' : GoMap ℕ Bool)
      → Delivered subs pkt (store_chan h s.ch (accept pkt (h s.ch))) (put s.ch true sent) h' sent'
      → Delivered (s ∷ subs) pkt h sent h' sent'
  Delivered-send e h' sent' d = record {
    queues = λ c. ground (arith, d.queues c, lookup-put s.ch c true sent);
    marks = λ c. ground (arith, d.marks c, lookup-put s.ch c true sent);
  }

deliver_subs-Delivered :
    (subs : List Subscription) (pkt : Packet) (h : Channels Packet) (sent : GoMap ℕ Bool)
    → AllOpen h subs
    → (r : Channels Packet × GoMap ℕ Bool) × (deliver_subs subs pkt h sent ≡ some r)
      × Delivered subs pkt h sent r.0 r.1
unfolding deliver_subs
deliver_subs-Delivered [] pkt h sent o =
    ((h, sent), refl, record { queues = λ c. refl; marks = λ c. ground arith })
deliver_subs-Delivered (s ∷ subs) pkt h sent o = elim (Bool-cases (was_sent sent s.ch)) [
  | inl old ↦
      let (r, e, d) = deliver_subs-Delivered subs pkt h sent (AllOpen-tail s subs pkt h sent o) in
      (
        r,
        deliver_subs-skip s subs pkt h sent old ∙ e,
        Delivered-skip s subs pkt h sent old r.0 r.1 d,
      )
  | inr new ↦
      let (r, e, d) =
        deliver_subs-Delivered subs pkt (store_chan h s.ch (accept pkt (h s.ch)))
          (put s.ch true sent) (AllOpen-store s subs pkt h sent o) in
      let open_ch : (h s.ch).closed ≡ false = o s.ch (ground (arith, nat_beq_iff s.ch s.ch)) in
      (
        r,
        deliver_subs-send s subs pkt h sent new open_ch ∙ e,
        Delivered-send s subs pkt h sent new r.0 r.1 d,
      )
]

-- Whether a channel watches one of the endpoints; an invalid endpoint has no watchers.
abbrev pub watches : Subs → List AddrPort → ℕ → Bool
watches subs [] c = false
watches subs (a ∷ addrs) c = (is_valid a && owns c (watchers subs a)) || watches subs addrs c

deliver_targets-invalid :
    (subs : Subs) (a : AddrPort) (addrs : List AddrPort) (pkt : Packet) (h : Channels Packet)
    (sent : GoMap ℕ Bool)
    → is_valid a ≡ false
    → deliver_targets subs (a ∷ addrs) pkt h sent ≡ deliver_targets subs addrs pkt h sent
unfolding deliver_targets
deliver_targets-invalid subs a addrs pkt h sent e = rw e

deliver_targets-valid :
    (subs : Subs) (a : AddrPort) (addrs : List AddrPort) (pkt : Packet) (h : Channels Packet)
    (sent : GoMap ℕ Bool) (r : Channels Packet × GoMap ℕ Bool)
    → is_valid a ≡ true
    → deliver_subs (watchers subs a) pkt h sent ≡ some r
    → deliver_targets subs (a ∷ addrs) pkt h sent ≡ deliver_targets subs addrs pkt r.0 r.1
unfolding deliver_targets
deliver_targets-valid subs a addrs pkt h sent r e d = rw (e, d)

abbrev Reached :
    Subs → List AddrPort → Packet → Channels Packet → GoMap ℕ Bool → Channels Packet → Type 0
Reached subs addrs pkt h sent h' =
    (c : ℕ)
    → h' c ≡ (if watches subs addrs c && not (was_sent sent c) then accept pkt (h c) else h c)

deliver_targets-Reached :
    (subs : Subs) (addrs : List AddrPort) (pkt : Packet) (h : Channels Packet) (sent : GoMap ℕ Bool)
    → ((c : ℕ) → watches subs addrs c ≡ true → (h c).closed ≡ false)
    → (h' : Channels Packet) × (deliver_targets subs addrs pkt h sent ≡ some h')
      × Reached subs addrs pkt h sent h'
unfolding deliver_targets
deliver_targets-Reached subs [] pkt h sent o = (h, refl, λ c. refl)
deliver_targets-Reached subs (a ∷ addrs) pkt h sent o = elim (Bool-cases (is_valid a)) [
  | inr bad ↦
      let (h', e, q) = deliver_targets-Reached subs addrs pkt h sent (λ c w. ground (arith, o c)) in
      (h', deliver_targets-invalid subs a addrs pkt h sent bad ∙ e, λ c. ground (arith, q c))
  | inl good ↦
      let (r, f, d) =
        deliver_subs-Delivered (watchers subs a) pkt h sent (λ c w. ground (arith, o c)) in
      let (h', e, q) =
        deliver_targets-Reached subs addrs pkt r.0 r.1
          (λ c w. ground (arith, o c, d.queues c, closed-accept pkt (h c))) in
      (
        h',
        deliver_targets-valid subs a addrs pkt h sent r good f ∙ e,
        λ c. ground (arith, q c, d.queues c, d.marks c),
      )
]

-- With the watching channels open, `deliver` does not panic. If neither endpoint is under discovery,
-- each channel that watches the source or the destination, where that endpoint is valid, is offered
-- the packet exactly once; every other channel, and every channel otherwise, is left as it was.
pub deliver_once :
    (subs : Subs) (d : Discovering) (pkt : Packet) (h : Channels Packet)
    → ((c : ℕ) → watches subs (pkt.src ∷ pkt.dst ∷ []) c ≡ true → (h c).closed ≡ false)
    → (h' : Channels Packet) × (deliver subs d pkt h ≡ some h')
      × ((c : ℕ)
          → h' c ≡ (
              if not (is_discovering pkt.src d || is_discovering pkt.dst d)
                && watches subs (pkt.src ∷ pkt.dst ∷ []) c
              then accept pkt (h c)
              else h c))
unfolding deliver
deliver_once subs d pkt h o =
    elim (Bool-cases (is_discovering pkt.src d || is_discovering pkt.dst d)) [
      | inl busy ↦ (h, rw busy, λ c. rw busy)
      | inr idle ↦
          let (h', e, q) = deliver_targets-Reached subs (pkt.src ∷ pkt.dst ∷ []) pkt h [] o in
          (h', rw idle e, λ c. rw idle (ground (arith, q c)))
    ]
