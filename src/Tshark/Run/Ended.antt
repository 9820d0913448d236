-- ===== src/Tshark/Run/Ended.antt =====
-- A whole capture, from the first line of tshark to the end of its output.
use localproxy.Base.{
  ℕ, ◌≡◌, refl, Bytes, List, [], ◌∷◌, ◌++◌, Option, some, true, false, ◌||◌, if◌then◌else◌, arith,
  subst, nat_beq, nat_beq_iff, Bool-cases, inl, inr,
}
use localproxy.Base.Channel.{Channels, accept_all, closed-accept_all}
use localproxy.Net.{AddrPort}
use localproxy.Tshark.Packet.{Packet}
use localproxy.Tshark.Capture.{Subs, Discovering, Subscription, watchers}
use localproxy.Tshark.Capture.Deliver.{owns, watches}
use localproxy.Tshark.Capture.Closing.{AllLive, all_subs, close_all_subs_lem}
use localproxy.Tshark.Run.{run_capture}
use localproxy.Tshark.Run.Reader.{AreOpen, those_to, packets_of, read_lines_lem}

owns-append : (c : ℕ) (k l : List Subscription) → owns c (k ++ l) ≡ (owns c k || owns c l)
owns-append c [] l = refl
owns-append c (s ∷ k) l = ground (arith, owns-append c k l)

-- Who watches an endpoint is registered.
owns-watchers :
    (subs : Subs) (a : AddrPort) (c : ℕ)
    → owns c (watchers subs a) ≡ true
    → owns c (all_subs subs) ≡ true
owns-watchers [] a c h = ground arith
owns-watchers ((b, l) ∷ subs) a c h =
    ground (arith, owns-append c l (all_subs subs), owns-watchers subs a c)

owns-watches :
    (subs : Subs) (addrs : List AddrPort) (c : ℕ)
    → watches subs addrs c ≡ true
    → owns c (all_subs subs) ≡ true
owns-watches subs [] c h = ground arith
owns-watches subs (a ∷ addrs) c h =
    ground (arith, owns-watchers subs a c, owns-watches subs addrs c)

AllLive-open :
    (h : Channels Packet) (l : List Subscription) (c : ℕ)
    → AllLive h l
    → owns c l ≡ true
    → (h c).closed ≡ false
AllLive-open h [] c v o = ground arith
AllLive-open h (s ∷ l) c v o = elim (Bool-cases (nat_beq s.ch c)) [
  | inl same ↦ subst (λ k. (h k).closed ≡ false) ((nat_beq_iff s.ch c).0 same) v.0
  | inr other ↦ AllLive-open h l c v.2 (ground (arith, o, other))
]

AllLive-kept :
    (h h' : Channels Packet) (l : List Subscription)
    → ((c : ℕ) → (h' c).closed ≡ (h c).closed)
    → AllLive h l
    → AllLive h' l
AllLive-kept h h' [] q v = tt
AllLive-kept h h' (s ∷ l) q v = ground (arith, q s.ch, AllLive-kept h h' l q)

-- A capture whose subscriptions are live does not panic, whatever tshark prints. Every channel is offered,
-- in order, exactly the packets of the lines that are no index lines and parse, that have an endpoint which
-- it watches, and that have none under discovery; then the channels of the subscriptions are closed and no
-- other, and no subscription is left.
pub run_capture_lem :
    (parse : Bytes → Option Packet) (subs : Subs) (d : Discovering) (lines : List Bytes)
    (h : Channels Packet)
    → AllLive h (all_subs subs)
    → (h' : Channels Packet) × (run_capture parse subs d lines h ≡ some ([], h'))
      × ((c : ℕ)
          → let ch = accept_all (those_to subs d c (packets_of parse lines)) (h c) in
            h' c ≡ (if owns c (all_subs subs) then record ch { closed = true } else ch))
unfolding run_capture
run_capture_lem parse subs d lines h v =
    let ready : AreOpen subs h = λ c pkt w.
      AllLive-open h (all_subs subs) c v (owns-watches subs (pkt.src ∷ pkt.dst ∷ []) c w) in
    let (mid, e, q) = read_lines_lem parse subs d lines h ready in
    let live =
      AllLive-kept h mid (all_subs subs)
        (λ c.
          ground (arith, q c, closed-accept_all (those_to subs d c (packets_of parse lines)) (h c)))
        v in
    let (h', f, r) = close_all_subs_lem subs mid live in
    (h', rw (run_capture, e) f, λ c. ground (arith, q c, r c))
