-- ===== src/Tshark/Run/Reader.antt =====
-- What the subscribers get from the output of tshark.
use localproxy.Base.{
  ℕ, ◌≡◌, refl, ap, Bytes, List, [], ◌∷◌, Option, none, some, Bool, true, false, not, ◌&&◌, ◌||◌,
  if◌then◌else◌, arith, Option-cases, inl, inr,
}
use localproxy.Base.Channel.{Channels, accept_all, closed-accept}
use localproxy.Tshark.Packet.{Packet}
use localproxy.Tshark.Parse.{is_index_line}
use localproxy.Tshark.Capture.{Subs, Discovering, is_discovering}
use localproxy.Tshark.Capture.Deliver.{watches, deliver_once}
use localproxy.Tshark.Run.{read_lines}

-- The packet goes to the channel.
abbrev pub goes_to : Subs → Discovering → ℕ → Packet → Bool
goes_to subs d c pkt =
    not (is_discovering pkt.src d || is_discovering pkt.dst d)
    && watches subs (pkt.src ∷ pkt.dst ∷ []) c

-- The channels that watch an endpoint are open.
abbrev pub AreOpen : Subs → Channels Packet → Type 0
AreOpen subs h =
    (c : ℕ) (pkt : Packet) → watches subs (pkt.src ∷ pkt.dst ∷ []) c ≡ true → (h c).closed ≡ false

-- The packets that go to the channel.
abbrev pub those_to : Subs → Discovering → ℕ → List Packet → List Packet
those_to subs d c [] = []
those_to subs d c (pkt ∷ pkts) =
    let rest = those_to subs d c pkts in if goes_to subs d c pkt then pkt ∷ rest else rest

module _ (parse : Bytes → Option Packet) where
  -- The packets of the lines that hold one, in order.
  abbrev pub packets_of : List Bytes → List Packet
  packets_of [] = []
  packets_of (line ∷ lines) =
      let rest = packets_of lines in
      elim (if is_index_line line then none else parse line) [ none ↦ rest | some pkt ↦ pkt ∷ rest ]

  packets_of-cons :
      (line : Bytes) (lines : List Bytes) (r : Option Packet)
      → (if is_index_line line then none else parse line) ≡ r
      → packets_of (line ∷ lines)
        ≡ elim r [ none ↦ packets_of lines | some pkt ↦ pkt ∷ packets_of lines ]
  packets_of-cons line lines r e =
      ap (λ o. elim o [ none ↦ packets_of lines | some pkt ↦ pkt ∷ packets_of lines ]) e

  -- As long as the channels that watch an endpoint are open, reading does not panic, and every channel is
  -- offered, in order, exactly the packets of the lines that are no index lines and parse, that have an
  -- endpoint which it watches, and that have none under discovery.
  pub read_lines_lem :
      (subs : Subs) (d : Discovering) (lines : List Bytes) (h : Channels Packet)
      → AreOpen subs h
      → (h' : Channels Packet) × (read_lines parse subs d lines h ≡ some h')
        × ((c : ℕ) → h' c ≡ accept_all (those_to subs d c (packets_of lines)) (h c))
  unfolding read_lines accept_all
  read_lines_lem subs d [] h o = (h, refl, λ c. refl)
  read_lines_lem subs d (line ∷ lines) h o =
      elim (Option-cases (if is_index_line line then none else parse line)) [
        | inl e ↦
            let (h', f, q) = read_lines_lem subs d lines h o in
            (h', rw (read_lines, e) f, λ c. rw (packets_of-cons line lines none e) (q c))
        | inr (pkt, e) ↦
            let (mid, f, q) = deliver_once subs d pkt h (λ c. o c pkt) in
            let still : AreOpen subs mid =
              λ c pkt' w. ground (arith, q c, o c pkt' w, closed-accept pkt (h c)) in
            let (h', g, r) = read_lines_lem subs d lines mid still in
            (
              h',
              rw (read_lines, e, f) g,
              λ c. rw (packets_of-cons line lines (some pkt) e) (ground (arith, r c, q c)),
            )
      ]
