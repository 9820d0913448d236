-- ===== src/Tshark/Parse/Tests.antt =====
-- Packets on small inputs, and the theorem at a concrete input. The layers stand for themselves here:
-- `unmarshal` knows two texts.
use localproxy.Base.{
  ◌≤◌, ◌≡◌, refl, Bytes, codes, [], ◌∷◌, Option, none, some, true, false, if◌then◌else◌, bytes_beq,
  bytes_eq,
}
use localproxy.Base.GoMap.{lookup}
use localproxy.Base.Uint.{parse_uint, scan_uint}
use localproxy.Base.Atoi.{max_uint}
use localproxy.Net.{Addr, v4}
use localproxy.Tshark.Packet.{Packet, RawMessage}
use localproxy.Tshark.Json.{Json, string, object, no_entries, entry}
use localproxy.Tshark.Parse.{EkObject, packet_of, parse_ek_packet, is_index_line}
use localproxy.Tshark.Parse.Packets.{parse_ek_packet_lem}

-- The second line is too short to be read.
finds_index_lines :
    (is_index_line (codes "{\"index\":{}}") ≡ true)
    × (is_index_line (codes "{}") ≡ true)
    × (is_index_line (codes "{\"timestamp\":\"1\"}") ≡ false)
unfolding is_index_line
finds_index_lines = (refl, refl, refl)

abbrev ip_json : Json
ip_json = object (entry (codes "ip_ip_src") (string (codes "127.0.0.1")) no_entries)

abbrev tcp_json : Json
tcp_json = object (
    entry (codes "tcp_tcp_srcport") (string (codes "5432"))
      (entry (codes "tcp_tcp_dstport") (string (codes "70000")) no_entries))

abbrev unmarshal : RawMessage → Option Json
unmarshal raw =
    if bytes_beq raw (codes "ip")
    then some ip_json
    else if bytes_beq raw (codes "tcp")
    then some tcp_json
    else none

abbrev parse_addr : Bytes → Option Addr
parse_addr s = if bytes_beq s (codes "127.0.0.1") then some (v4 2130706433) else none

abbrev obj : EkObject
obj = record {
  timestamp = codes "17";
  layers =
      (codes "frame", codes "bad") ∷ (codes "ip", codes "ip") ∷ (codes "tcp", codes "tcp") ∷ [];
}

abbrev unmarshal_ek : Bytes → Option EkObject
unmarshal_ek line = some obj

-- There is no destination address, so the port that was not read does not matter either.
reads_source :
    let pkt = packet_of unmarshal parse_addr (codes "{}") obj in
    (pkt.src ≡ record { ip = v4 2130706433; port = 5432 }) × (pkt.dst.port ≡ 0) × (pkt.number ≡ 0)
unfolding packet_of parse_uint scan_uint
reads_source = (refl, refl, refl)

parse_ek_packet_lem_example :
    (pkt : Packet) × (parse_ek_packet unmarshal parse_addr unmarshal_ek (codes "{}") ≡ some pkt)
    × (pkt.number ≤ max_uint)
    × (pkt.src.port ≤ 65535)
    × (pkt.dst.port ≤ 65535)
    × (pkt.raw ≡ codes "{}")
    × ((name : Bytes)
        → lookup name pkt.layers
          ≡ (if bytes_beq name (codes "frame") then none else lookup name obj.layers))
parse_ek_packet_lem_example =
    parse_ek_packet_lem unmarshal parse_addr unmarshal_ek (codes "{}") obj refl
      (refl, (refl, (refl, tt)))
