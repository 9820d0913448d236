-- ===== src/Tshark/Capture/Closing.antt =====
-- `Subscription.Close` and `closeAllSubs`: which channels they close, and when they panic.
use localproxy.Base.{
  ℕ, ◌≡◌, ◌∙◌, refl, List, [], ◌∷◌, ◌++◌, none, some, true, false, if◌then◌else◌, nat_beq,
  nat_beq_iff, Option-cases, inl, inr, arith,
}
use localproxy.Base.GoMap.{put, lookup-put, lookup-delete}
use localproxy.Base.Channel.{Chan, Channels, make_chan, store_chan, close_chan}
use localproxy.Net.{AddrPort, endpoint_eq, endpoint_beq, endpoint_beq_iff}
use localproxy.Tshark.Packet.{Packet}
use localproxy.Tshark.Capture.{
  Subscription, Subs, watchers, subscribe, cut_sub, has_sub, drop_sub, unsubscribe, close_subs,
  close_all_subs,
}
use localproxy.Tshark.Capture.Deliver.{owns}

cut_sub-absent :
    (sub : Subscription) (l : List Subscription) → has_sub sub l ≡ false → cut_sub sub l ≡ l
unfolding cut_sub has_sub
cut_sub-absent sub [] h = refl
cut_sub-absent sub (s ∷ l) h = ground (arith, cut_sub-absent sub l)

-- `unsubscribe` takes the subscription out of the slice of its target, and leaves the others alone.
pub watchers-drop_sub :
    (sub : Subscription) (subs : Subs) (a : AddrPort)
    → watchers (drop_sub sub subs) a
      ≡ (if endpoint_beq sub.target a then cut_sub sub (watchers subs a) else watchers subs a)
unfolding drop_sub
watchers-drop_sub sub subs a = ground (
  arith,
  endpoint_beq_iff sub.target a,
  endpoint_beq_iff sub.target sub.target,
  cut_sub-absent sub (watchers subs sub.target),
  lookup-put sub.target a (cut_sub sub (watchers subs sub.target)) subs,
  lookup-put sub.target sub.target (cut_sub sub (watchers subs sub.target)) subs,
  lookup-delete sub.target a subs,
  lookup-delete sub.target a (put sub.target (cut_sub sub (watchers subs sub.target)) subs),
)

abbrev shut : Chan Packet → Chan Packet
shut ch = record ch { closed = true }

-- Closing an open subscription closes its channel, and no other.
pub unsubscribe-open :
    (subs : Subs) (sub : Subscription) (h : Channels Packet)
    → (h sub.ch).closed ≡ false
    → unsubscribe subs sub h ≡ some (drop_sub sub subs, store_chan h sub.ch (shut (h sub.ch)))
unfolding unsubscribe close_chan
unsubscribe-open subs sub h o = ground arith

pub unsubscribe-closed :
    (subs : Subs) (sub : Subscription) (h : Channels Packet)
    → (h sub.ch).closed ≡ true
    → unsubscribe subs sub h ≡ none
unfolding unsubscribe close_chan
unsubscribe-closed subs sub h c = ground arith

-- The subscriptions of all endpoints.
abbrev pub all_subs : Subs → List Subscription
all_subs [] = []
all_subs ((a, l) ∷ subs) = l ++ all_subs subs

-- The channels are open, and no two subscriptions share one.
abbrev pub AllLive : Channels Packet → List Subscription → Type 0
AllLive h [] = Unit {0}
AllLive h (s ∷ l) = ((h s.ch).closed ≡ false) × (owns s.ch l ≡ false) × AllLive h l

AllLive-store :
    (h : Channels Packet) (c : ℕ) (ch : Chan Packet) (l : List Subscription)
    → owns c l ≡ false
    → AllLive h l
    → AllLive (store_chan h c ch) l
AllLive-store h c ch [] n v = tt
AllLive-store h c ch (s ∷ l) n v = ground (arith, AllLive-store h c ch l)

abbrev Shuts : List Subscription → Channels Packet → Channels Packet → Type 0
Shuts l h h' = (c : ℕ) → h' c ≡ (if owns c l then shut (h c) else h c)

close_subs-cons :
    (s : Subscription) (l : List Subscription) (h : Channels Packet)
    → (h s.ch).closed ≡ false
    → close_subs (s ∷ l) h ≡ close_subs l (store_chan h s.ch (shut (h s.ch)))
unfolding close_subs close_chan
close_subs-cons s l h o = ground arith

close_subs-Shuts :
    (l : List Subscription) (h : Channels Packet)
    → AllLive h l
    → (h' : Channels Packet) × (close_subs l h ≡ some h') × Shuts l h h'
unfolding close_subs
close_subs-Shuts [] h v = (h, refl, λ c. refl)
close_subs-Shuts (s ∷ l) h v =
    let live = AllLive-store h s.ch (shut (h s.ch)) l v.1 v.2 in
    let (h', e, q) = close_subs-Shuts l (store_chan h s.ch (shut (h s.ch))) live in
    (h', close_subs-cons s l h v.0 ∙ e, λ c. ground (arith, q c))

close_subs-append :
    (k l : List Subscription) (h : Channels Packet)
    → close_subs (k ++ l) h ≡ elim (close_subs k h) [ none ↦ none | some h' ↦ close_subs l h' ]
unfolding close_subs close_chan
close_subs-append [] l h = refl
close_subs-append (s ∷ k) l h =
    ground (arith, close_subs-append k l (store_chan h s.ch (shut (h s.ch))))

close_all_subs-flat :
    (subs : Subs) (h : Channels Packet)
    → close_all_subs subs h
      ≡ elim (close_subs (all_subs subs) h) [ none ↦ none | some h' ↦ some ([], h') ]
unfolding close_all_subs close_subs
close_all_subs-flat [] h = refl
close_all_subs-flat ((a, l) ∷ subs) h = elim (Option-cases (close_subs l h)) [
  | inl e ↦ ground (arith, close_subs-append l (all_subs subs) h)
  | inr (h', e) ↦ ground (arith, close_subs-append l (all_subs subs) h, close_all_subs-flat subs h')
]

-- When a capture ends with its subscriptions live, `closeAllSubs` does not panic: it closes the
-- channel of each of them, touches no other channel, and leaves none registered.
pub close_all_subs_lem :
    (subs : Subs) (h : Channels Packet)
    → AllLive h (all_subs subs)
    → (h' : Channels Packet) × (close_all_subs subs h ≡ some ([], h'))
      × ((c : ℕ) → h' c ≡ (if owns c (all_subs subs) then record (h c) { closed = true } else h c))
close_all_subs_lem subs h v =
    let (h', e, q) = close_subs-Shuts (all_subs subs) h v in
    (h', close_all_subs-flat subs h ∙ rw e, q)

-- After a capture has ended with its subscriptions live, closing any of them panics: its channel is
-- closed a second time.
unsubscribe-close_all_subs :
    (subs : Subs) (sub : Subscription) (h : Channels Packet)
    → AllLive h (all_subs subs)
    → owns sub.ch (all_subs subs) ≡ true
    → (h' : Channels Packet) × (close_all_subs subs h ≡ some ([], h'))
      × (unsubscribe [] sub h' ≡ none)
unsubscribe-close_all_subs subs sub h v o =
    let (h', e, q) = close_all_subs_lem subs h v in
    (h', e, unsubscribe-closed [] sub h' (ground (arith, q sub.ch)))

-- Closing a subscription whose channel is open does not panic. It takes the subscription out of the
-- slice of its target and changes no other slice, closes its channel and no other, and a second close
-- panics.
unsubscribe_lem :
    (subs : Subs) (sub : Subscription) (h : Channels Packet)
    → (h sub.ch).closed ≡ false
    → (subs' : Subs) × (h' : Channels Packet) × (unsubscribe subs sub h ≡ some (subs', h'))
      × ((a : AddrPort)
          → watchers subs' a ≡ (
              if endpoint_beq sub.target a then cut_sub sub (watchers subs a) else watchers subs a))
      × ((c : ℕ) → h' c ≡ (if nat_beq sub.ch c then record (h c) { closed = true } else h c))
      × (unsubscribe subs' sub h' ≡ none)
unsubscribe_lem subs sub h o =
    let h' = store_chan h sub.ch (shut (h sub.ch)) in
    (
      drop_sub sub subs,
      h',
      unsubscribe-open subs sub h o,
      watchers-drop_sub sub subs,
      (λ c. ground arith),
      unsubscribe-closed (drop_sub sub subs) sub h' (ground (arith, nat_beq_iff sub.ch sub.ch)),
    )

cut_sub-append :
    (sub : Subscription) (l : List Subscription)
    → has_sub sub l ≡ false
    → cut_sub sub (l ++ (sub ∷ [])) ≡ l
unfolding cut_sub has_sub
cut_sub-append sub [] h = ground (arith, nat_beq_iff sub.ch sub.ch)
cut_sub-append sub (s ∷ l) h = ground (arith, cut_sub-append sub l)

-- To subscribe on a channel that no subscription of the target uses and to close the subscription
-- again restores the slices of all endpoints, and leaves the channel closed and empty.
unsubscribe-subscribe :
    (subs : Subs) (target : AddrPort) (c : ℕ) (h : Channels Packet)
    → has_sub (record { ch = c; target = target }) (watchers subs target) ≡ false
    → let (sub, mid, opened) = subscribe subs target c h in
      (subs' : Subs) × (h' : Channels Packet) × (unsubscribe mid sub opened ≡ some (subs', h'))
      × ((a : AddrPort) → watchers subs' a ≡ watchers subs a)
      × (h' c ≡ record { queue = []; room = 64; closed = true })
unfolding subscribe
unsubscribe-subscribe subs target c h fresh =
    let sub : Subscription = record { ch = c; target = target } in
    let mid = put target (watchers subs target ++ (sub ∷ [])) subs in
    let opened = store_chan h c (make_chan 64) in
    let new : opened c ≡ make_chan 64 = ground (arith, nat_beq_iff c c) in
    (
      drop_sub sub mid,
      store_chan opened c (shut (opened c)),
      unsubscribe-open mid sub opened (rw new),
      (λ a. ground (
        arith,
        watchers-drop_sub sub mid a,
        lookup-put target a (watchers subs target ++ (sub ∷ [])) subs,
        endpoint_beq_iff target a,
        cut_sub-append sub (watchers subs target),
      )),
      ground (arith, nat_beq_iff c c),
    )
