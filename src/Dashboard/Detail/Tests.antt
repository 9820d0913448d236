-- ===== src/Dashboard/Detail/Tests.antt =====
-- The page of a packet on small inputs, and the theorem at a concrete input.
use localproxy.Base.{
  ℕ, ◌≡◌, refl, pos, Bytes, codes, [], ◌∷◌, Option, none, some, true, false, bytes_eq, itoa, arith,
}
use localproxy.Base.GoMap.{GoMap}
use localproxy.Base.Text.{join}
use localproxy.Base.Uint.{parse_uint, scan_uint}
use localproxy.Net.{AddrPort, loopback}
use localproxy.Discovery.Types.{from_process}
use localproxy.Proxy.Route.{plain_route}
use localproxy.Dashboard.Backend.{Backend, plain_backend}
use localproxy.Dashboard.Http.{http_error, written}
use localproxy.Dashboard.Detail.{
  flags_text, message_fields, value_fields, serve_packet_detail, packet_detail, monospaced,
}
use localproxy.Dashboard.Detail.Shown.{serve_packet_detail_lem}
use localproxy.Tshark.Packet.{Packet, RawMessage, bare_packet}
use localproxy.Tshark.Json.{Json}
use localproxy.Tshark.PgSql.{pg_data_row}
use localproxy.Tshark.Buffer.{PacketBuffer, new_of_size}
use localproxy.Tshark.Buffer.History.{store_all}

joins_flags :
    flags_text
      (record { syn = true; ack = true; fin = false; rst = false; psh = false; urg = false })
    ≡ codes "SYN ACK"
unfolding join
joins_flags = refl

numbers_values :
    message_fields (pg_data_row (codes "1" ∷ codes "shop" ∷ []) (pos 9))
    ≡ monospaced (codes "[0]") (codes "1") ∷ monospaced (codes "[1]") (codes "shop") ∷ []
unfolding message_fields value_fields itoa
numbers_values = refl

abbrev unmarshal : RawMessage → Option Json
unmarshal raw = none

abbrev web : Backend
web = plain_backend (plain_route (codes "web") (record { ip = loopback; port = 3000 })) from_process

abbrev backends : GoMap Bytes Backend
backends = (codes "web", web) ∷ []

abbrev numbered : ℕ → Packet
numbered n = record (bare_packet []) { number = n }

abbrev buffer_of : AddrPort → Option PacketBuffer
buffer_of ep = some (store_all (new_of_size 2) (numbered 7 ∷ numbered 8 ∷ numbered 9 ∷ []))

refuses_text :
    serve_packet_detail unmarshal backends (some buffer_of) (codes "web") (codes "8x")
    ≡ some (http_error 400 (codes "invalid packet number"))
unfolding serve_packet_detail parse_uint scan_uint
refuses_text = refl

serve_packet_detail_lem_example :
    serve_packet_detail unmarshal backends (some buffer_of) (codes "web") (itoa 8)
    ≡ some (written (packet_detail unmarshal (numbered 8)))
serve_packet_detail_lem_example =
    serve_packet_detail_lem unmarshal backends buffer_of (codes "web") web 2
      (numbered 7 ∷ numbered 8 ∷ numbered 9 ∷ []) 8 (λ e. cc) refl (omega arith) refl (omega arith)
