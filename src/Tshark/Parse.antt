-- ===== src/Tshark/Parse.antt =====
-- pkg/tshark/packet.go: `ParseEKPacket`, the layers of a packet, and `IsIndexLine`. JSON and the texts of
-- addresses are read by the arguments `unmarshal_ek`, `unmarshal` and `parse_addr`.
pub mod Packets
mod Tests
use localproxy.Base.{
  ℕ, ℤ, pos, Bytes, codes, List, [], ◌∷◌, map, length, drop, Option, none, some, Bool, true,
  if◌then◌else◌, ltb, bytes_beq, bytes_eq, is_some,
}
use localproxy.Base.GoMap.{GoMap, lookup, put}
use localproxy.Base.Text.{split, has_prefix, to_lower}
use localproxy.Base.Uint.{parse_uint, uint_or_zero}
use localproxy.Base.Atoi.{max_uint, atoi, parse_int}
use localproxy.Net.{Addr, invalid, AddrPort}
use localproxy.Tshark.Packet.{RawMessage, Packet, no_endpoint}
use localproxy.Tshark.Json.{Json, Fields, as_fields, ek_string}
use localproxy.Tshark.Tcp.{TcpLayer, max_uint16, int_or_zero, parse_tcp_layer}
use localproxy.Tshark.PgSql.{PgMessage, parse_pgsql_layer}

-- The anonymous struct of `ParseEKPacket`.
pub record EkObject : Type 0 where
  pub timestamp : Bytes
  pub layers : GoMap Bytes RawMessage

abbrev pub last_piece : List Bytes → Bytes
last_piece [] = []
last_piece (piece ∷ []) = piece
last_piece (piece ∷ next ∷ pieces) = last_piece (next ∷ pieces)

-- Number, length and protocol.
pub record Frame : Type 0 where
  pub number : ℕ
  pub size : ℤ
  pub protocol : Bytes

abbrev pub no_frame : Frame
no_frame = record { number = 0; size = pos 0; protocol = [] }

abbrev pub frame_of : Fields → Frame
frame_of frame =
    let num = ek_string frame (codes "frame_frame_number") in
    let proto = ek_string frame (codes "frame_frame_protocols") in
    record {
      number = if bytes_beq num [] then 0 else (parse_uint max_uint num).0;
      size = int_or_zero (ek_string frame (codes "frame_frame_len"));
      protocol = if bytes_beq proto [] then [] else last_piece (split b':' proto);
    }

-- The loop at the end of `ParseEKPacket`.
pub copy_layers : GoMap Bytes RawMessage → GoMap Bytes RawMessage → GoMap Bytes RawMessage
copy_layers [] copied = copied
copy_layers ((name, raw) ∷ layers) copied =
    copy_layers layers (if bytes_beq name (codes "frame") then copied else put name raw copied)

-- `if ip.IsValid() { field = netip.AddrPortFrom(ip, port) }`, on the zero endpoint.
abbrev pub endpoint_of : Addr → ℕ → AddrPort
endpoint_of invalid port = no_endpoint
endpoint_of ip port = record { ip = ip; port = port }

-- A layer that is asked for: it is not there, it is no JSON of the kind, or it is read.
pub data Layered {ℓ} (A : Type ℓ) : Type ℓ where
  layer_not_found : Layered A
  malformed : Layered A
  found : A → Layered A

-- `HasLayer`
abbrev pub has_layer : Packet → Bytes → Bool
has_layer p name = is_some (lookup (to_lower name) p.layers)

-- `Layer`
abbrev pub layer : Packet → Bytes → Option RawMessage
layer p name = lookup (to_lower name) p.layers

-- `LayerNames`
abbrev pub layer_names : Packet → List Bytes
layer_names p = map (λ e. e.0) p.layers

-- `IsIndexLine`
unfoldable pub is_index_line : Bytes → Bool
is_index_line line =
    if ltb (length line) 10 then true else has_prefix (drop 1 line) (b'"' ∷ codes "index")

module _ (unmarshal : RawMessage → Option Json) where
  -- `TCP`
  unfoldable pub tcp : Packet → Layered TcpLayer
  unfolding parse_tcp_layer
  tcp p = elim (lookup (codes "tcp") p.layers) [
    | none ↦ layer_not_found
    | some raw ↦ elim (as_fields (unmarshal raw)) [
      | none ↦ malformed
      | some fields ↦ found (parse_tcp_layer fields)
    ]
  ]

  -- `PgSQL`
  unfoldable pub pgsql : Packet → Layered (List PgMessage)
  unfolding parse_pgsql_layer
  pgsql p = elim (lookup (codes "pgsql") p.layers) [
    | none ↦ layer_not_found
    | some raw ↦ elim (parse_pgsql_layer (unmarshal raw)) [
      | none ↦ malformed
      | some messages ↦ found messages
    ]
  ]

  -- The fields of a layer, where it is there and is an object.
  abbrev pub layer_fields : GoMap Bytes RawMessage → Bytes → Option Fields
  layer_fields layers name = elim (lookup name layers) [
    | none ↦ none
    | some raw ↦ as_fields (unmarshal raw)
  ]

  -- The block under `obj.Layers["frame"]`.
  abbrev pub read_frame : GoMap Bytes RawMessage → Frame
  read_frame layers = elim (layer_fields layers (codes "frame")) [
    | none ↦ no_frame
    | some frame ↦ frame_of frame
  ]

  -- The ports of a layer.
  abbrev pub layer_ports : GoMap Bytes RawMessage → Bytes → Bytes → Bytes → ℕ × ℕ
  layer_ports layers name src dst = elim (layer_fields layers name) [
    | none ↦ (0, 0)
    | some fields ↦ (
      uint_or_zero max_uint16 (ek_string fields src),
      uint_or_zero max_uint16 (ek_string fields dst),
    )
  ]

  -- The two ports: those of the UDP layer only where there is no TCP layer.
  abbrev pub read_ports : GoMap Bytes RawMessage → ℕ × ℕ
  read_ports layers =
      if is_some (lookup (codes "tcp") layers)
      then layer_ports layers (codes "tcp") (codes "tcp_tcp_srcport") (codes "tcp_tcp_dstport")
      else layer_ports layers (codes "udp") (codes "udp_udp_srcport") (codes "udp_udp_dstport")

  module _ (parse_addr : Bytes → Option Addr) where
    -- `if s != "" { ip, _ = netip.ParseAddr(s) }`
    abbrev pub address_or : Addr → Bytes → Addr
    address_or ip s =
        if bytes_beq s [] then ip else elim (parse_addr s) [ none ↦ invalid | some ip' ↦ ip' ]

    -- The block of one IP layer, on the addresses so far.
    abbrev pub layer_addresses :
        GoMap Bytes RawMessage → Bytes → Bytes → Bytes → Addr × Addr → Addr × Addr
    layer_addresses layers name src dst ips = elim (layer_fields layers name) [
      | none ↦ ips
      | some fields ↦
          (address_or ips.0 (ek_string fields src), address_or ips.1 (ek_string fields dst))
    ]

    abbrev pub read_addresses : GoMap Bytes RawMessage → Addr × Addr
    read_addresses layers =
        layer_addresses layers (codes "ipv6") (codes "ipv6_ipv6_src") (codes "ipv6_ipv6_dst") (
          layer_addresses layers (codes "ip") (codes "ip_ip_src") (codes "ip_ip_dst")
            (invalid, invalid))

    -- `ParseEKPacket` of a line that holds an object.
    pub packet_of : Bytes → EkObject → Packet
    unfolding copy_layers
    packet_of line obj =
        let frame = read_frame obj.layers in
        let ips = read_addresses obj.layers in
        let ports = read_ports obj.layers in
        record {
          number = frame.number;
          timestamp = parse_int obj.timestamp;
          protocol = frame.protocol;
          size = frame.size;
          src = endpoint_of ips.0 ports.0;
          dst = endpoint_of ips.1 ports.1;
          layers = copy_layers obj.layers [];
          raw = line;
        }

    -- `ParseEKPacket`
    pub parse_ek_packet : (Bytes → Option EkObject) → Bytes → Option Packet
    unfolding packet_of
    parse_ek_packet unmarshal_ek line = elim (unmarshal_ek line) [
      | none ↦ none
      | some obj ↦ some (packet_of line obj)
    ]
