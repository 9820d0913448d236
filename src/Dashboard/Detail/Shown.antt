-- ===== src/Dashboard/Detail/Shown.antt =====
-- Which packet `servePacketDetail` shows.
use localproxy.Base.{
  ℕ, ◌<◌, ◌≤◌, ◌≡◌, ◌≢◌, refl, ◌∙◌, Bytes, codes, List, [], ◌∷◌, Option, none, some, true, false,
  if◌then◌else◌, bytes_beq, bytes_beq_iff, bytes_eq, itoa, length-itoa, arith, nat_beq,
  Option-cases, inl, inr,
}
use localproxy.Base.GoMap.{GoMap, lookup}
use localproxy.Base.Recent.{last_n}
use localproxy.Base.Uint.{parse_uint, scan_uint-itoa}
use localproxy.Base.Atoi.{max_uint}
use localproxy.Net.{AddrPort}
use localproxy.Dashboard.Backend.{Backend}
use localproxy.Dashboard.Http.{http_error, written}
use localproxy.Tshark.Packet.{Packet, RawMessage}
use localproxy.Tshark.Json.{Json}
use localproxy.Tshark.Buffer.{PacketBuffer, hit, miss, new_of_size}
use localproxy.Tshark.Buffer.History.{store_all, find_number, get-new}
use localproxy.Dashboard.Detail.{packet_detail, serve_packet_detail}

parse_uint-itoa : (n : ℕ) → n ≤ max_uint → parse_uint max_uint (itoa n) ≡ (n, true)
unfolding parse_uint
parse_uint-itoa n h = ground (arith, scan_uint-itoa max_uint n h)

itoa-filled : (n : ℕ) → bytes_beq (itoa n) [] ≡ false
itoa-filled n = ground (arith, bytes_beq_iff (itoa n) [], length-itoa n)

-- The first packet with the number.
abbrev pub first_numbered : ℕ → List Packet → Option Packet
first_numbered number [] = none
first_numbered number (p ∷ ps) =
    let later = first_numbered number ps in if nat_beq p.number number then some p else later

find_number-first_numbered :
    (number : ℕ) (ps : List Packet)
    → find_number number ps ≡ elim (first_numbered number ps) [ none ↦ miss | some p ↦ hit p ]
unfolding find_number
find_number-first_numbered number [] = refl
find_number-first_numbered number (p ∷ ps) = ground (arith, find_number-first_numbered number ps)

-- Asked for the decimal number of a packet of a known service, whose buffer was new and has stored some
-- packets, the page shows the oldest of the last `n` packets with that number, and is 404 exactly if
-- there is none; it never panics.
pub serve_packet_detail_lem :
    (unmarshal : RawMessage → Option Json) (backends : GoMap Bytes Backend)
    (buffer_of : AddrPort → Option PacketBuffer) (subdomain : Bytes) (backend : Backend) (n : ℕ)
    (ps : List Packet) (number : ℕ)
    → subdomain ≢ []
    → lookup subdomain backends ≡ some backend
    → 0 < n
    → buffer_of backend.endpoint ≡ some (store_all (new_of_size n) ps)
    → number ≤ max_uint
    → serve_packet_detail unmarshal backends (some buffer_of) subdomain (itoa number)
      ≡ some (elim (first_numbered number (last_n n ps)) [
        | some pkt ↦ written (packet_detail unmarshal pkt)
        | none ↦ http_error 404 (codes "packet not found")
      ])
unfolding serve_packet_detail
serve_packet_detail_lem unmarshal backends buffer_of subdomain backend n ps number named known h
      buffer fits =
    let got = get-new n ps number h ∙ find_number-first_numbered number (last_n n ps) in
    let there : bytes_beq subdomain [] ≡ false =
      ground (arith, named, bytes_beq_iff subdomain []) in
    elim (Option-cases (first_numbered number (last_n n ps))) [
      | inl e ↦
          rw
            (
              serve_packet_detail,
              parse_uint-itoa number fits,
              there,
              itoa-filled number,
              known,
              buffer,
            )
            (rw (parse_uint-itoa number fits, got, e) refl)
      | inr (pkt, e) ↦
          rw
            (
              serve_packet_detail,
              parse_uint-itoa number fits,
              there,
              itoa-filled number,
              known,
              buffer,
            )
            (rw (parse_uint-itoa number fits, got, e) refl)
    ]
