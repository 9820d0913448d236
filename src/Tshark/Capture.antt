-- ===== src/Tshark/Capture.antt =====
-- pkg/tshark/capture.go: the subscriptions of a running capture and the delivery of packets.
-- A subscription and its channel are made together, so one address stands for both. `none` is a
-- panic.
pub mod Deliver
pub mod Closing
use localproxy.Base.{
  ℕ, ℤ, Bytes, List, [], ◌∷◌, ◌++◌, Option, none, some, Bool, true, false, ◌||◌, if◌then◌else◌,
  nat_beq, is_positive, codes, ◌==◌, bytes_eq, nat_eq,
}
use localproxy.Base.GoMap.{GoMap, lookup, put, delete}
use localproxy.Base.Channel.{Chan, Channels, make_chan, store_chan, offer, close_chan}
use localproxy.Net.{AddrPort, endpoint_eq, is_valid}
use localproxy.Tshark.Packet.{Packet}

pub record Subscription : Type 0 where
  pub ch : ℕ
  pub target : AddrPort

-- The registered subscriptions of a `Capture`, by their targets.
abbrev pub Subs : Type 0
Subs = GoMap AddrPort (List Subscription)

-- `c.subs[addr]`: a missing key reads as an empty slice.
abbrev pub watchers : Subs → AddrPort → List Subscription
watchers subs a = elim (lookup a subs) [ none ↦ [] | some l ↦ l ]

-- The endpoints under discovery, the package's `discovering` map.
abbrev pub Discovering : Type 0
Discovering = GoMap AddrPort Bool

unfoldable pub mark_discovery : AddrPort → Discovering → Discovering
mark_discovery a d = put a true d

unfoldable pub clear_discovery : AddrPort → Discovering → Discovering
clear_discovery a d = delete a d

unfoldable pub is_discovering : AddrPort → Discovering → Bool
is_discovering a d = elim (lookup a d) [ none ↦ false | some b ↦ b ]

-- `Subscribe`, with the fresh address of the channel.
unfoldable pub subscribe :
    Subs → AddrPort → ℕ → Channels Packet → Subscription × Subs × Channels Packet
subscribe subs target c h =
    let sub : Subscription = record { ch = c; target = target } in
    (sub, put target (watchers subs target ++ (sub ∷ [])) subs, store_chan h c (make_chan 64))

-- The slice without the first `sub`; pointers are equal when the channels are.
pub cut_sub : Subscription → List Subscription → List Subscription
cut_sub sub [] = []
cut_sub sub (s ∷ subs) = if nat_beq s.ch sub.ch then subs else s ∷ cut_sub sub subs

-- The loop over `subs` writes the map only when it finds `sub`.
pub has_sub : Subscription → List Subscription → Bool
has_sub sub [] = false
has_sub sub (s ∷ subs) = nat_beq s.ch sub.ch || has_sub sub subs

pub drop_sub : Subscription → Subs → Subs
unfolding cut_sub has_sub
drop_sub sub subs =
    let found = watchers subs sub.target in
    let cut = if has_sub sub found then put sub.target (cut_sub sub found) subs else subs in
    elim (watchers cut sub.target) [ [] ↦ delete sub.target cut | _ ∷ _ ↦ cut ]

-- `unsubscribe`, which `Subscription.Close` calls.
pub unsubscribe : Subs → Subscription → Channels Packet → Option (Subs × Channels Packet)
unsubscribe subs sub h = elim (close_chan (h sub.ch)) [
  | none ↦ none
  | some ch ↦ some (drop_sub sub subs, store_chan h sub.ch ch)
]

-- The inner loop of `deliver`, with the map `sent`.
pub deliver_subs :
    List Subscription
    → Packet
    → Channels Packet
    → GoMap ℕ Bool
    → Option (Channels Packet × GoMap ℕ Bool)
deliver_subs [] pkt h sent = some (h, sent)
deliver_subs (sub ∷ subs) pkt h sent = elim (lookup sub.ch sent) [
  | some true ↦ deliver_subs subs pkt h sent
  | _ ↦ elim (offer pkt (h sub.ch)) [
    | none ↦ none
    | some ch ↦ deliver_subs subs pkt (store_chan h sub.ch ch) (put sub.ch true sent)
  ]
]

-- The outer loop over `targets`.
pub deliver_targets :
    Subs → List AddrPort → Packet → Channels Packet → GoMap ℕ Bool → Option (Channels Packet)
deliver_targets subs [] pkt h sent = some h
deliver_targets subs (addr ∷ addrs) pkt h sent =
    let rest : Channels Packet × GoMap ℕ Bool → Option (Channels Packet) =
      λ r. deliver_targets subs addrs pkt r.0 r.1 in
    if is_valid addr
    then elim (deliver_subs (watchers subs addr) pkt h sent) [ none ↦ none | some r ↦ rest r ]
    else rest (h, sent)

pub deliver : Subs → Discovering → Packet → Channels Packet → Option (Channels Packet)
unfolding is_discovering
deliver subs d pkt h =
    if is_discovering pkt.src d || is_discovering pkt.dst d
    then some h
    else deliver_targets subs (pkt.src ∷ pkt.dst ∷ []) pkt h []

pub close_subs : List Subscription → Channels Packet → Option (Channels Packet)
close_subs [] h = some h
close_subs (sub ∷ subs) h = elim (close_chan (h sub.ch)) [
  | none ↦ none
  | some ch ↦ close_subs subs (store_chan h sub.ch ch)
]

-- `closeAllSubs`: every entry is deleted once its channels are closed.
pub close_all_subs : Subs → Channels Packet → Option (Subs × Channels Packet)
close_all_subs [] h = some ([], h)
close_all_subs ((addr, subs) ∷ rest) h = elim (close_subs subs h) [
  | none ↦ none
  | some h' ↦ close_all_subs rest h'
]
