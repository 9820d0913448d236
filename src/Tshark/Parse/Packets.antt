-- ===== src/Tshark/Parse/Packets.antt =====
-- What `ParseEKPacket` makes of a line.
use localproxy.Base.{
  ℕ, ◌≤◌, ◌≡◌, refl, Bytes, codes, [], ◌∷◌, Option, none, some, if◌then◌else◌, bytes_beq,
  bytes_beq_iff, bytes_eq, arith, Bool-cases, Option-cases, inl, inr, is_some,
}
use localproxy.Base.GoMap.{GoMap, lookup, put, lookup-put, HasUniqueKeys}
use localproxy.Base.Uint.{parse_uint-fits, uint_or_zero-fits}
use localproxy.Base.Atoi.{max_uint}
use localproxy.Net.{Addr, invalid, v4, v6}
use localproxy.Tshark.Packet.{RawMessage, Packet}
use localproxy.Tshark.Json.{Json, Fields, ek_string}
use localproxy.Tshark.Tcp.{max_uint16}
use localproxy.Tshark.Parse.{
  EkObject, frame_of, copy_layers, endpoint_of, layer_fields, read_frame, layer_ports, read_ports,
  read_addresses, packet_of, parse_ek_packet,
}

lookup-copy_layers :
    (layers copied : GoMap Bytes RawMessage) (name : Bytes)
    → HasUniqueKeys layers
    → lookup name (copy_layers layers copied) ≡ (
        if bytes_beq name (codes "frame")
        then lookup name copied
        else elim (lookup name layers) [ none ↦ lookup name copied | some raw ↦ some raw ])
unfolding copy_layers
lookup-copy_layers [] copied name u = ground arith
lookup-copy_layers ((key, raw) ∷ layers) copied name u = ground (
  arith,
  lookup-copy_layers layers copied name u.1,
  lookup-copy_layers layers (put key raw copied) name u.1,
  lookup-put key name raw copied,
  bytes_beq_iff key name,
  bytes_beq_iff key (codes "frame"),
  bytes_beq_iff name (codes "frame"),
)

port-endpoint_of : (ip : Addr) (port : ℕ) → port ≤ 65535 → (endpoint_of ip port).port ≤ 65535
port-endpoint_of invalid port h = omega arith
port-endpoint_of (v4 a) port h = h
port-endpoint_of (v6 a z) port h = h

module _ (unmarshal : RawMessage → Option Json) where
  layer_ports-fit :
      (layers : GoMap Bytes RawMessage) (name src dst : Bytes)
      → ((layer_ports unmarshal layers name src dst).0 ≤ 65535)
        × ((layer_ports unmarshal layers name src dst).1 ≤ 65535)
  layer_ports-fit layers name src dst = elim (Option-cases (layer_fields unmarshal layers name)) [
    | inl e ↦ rw (layer_ports, e) (omega arith, omega arith)
    | inr (fields, e) ↦
        rw (layer_ports, e)
          (
            uint_or_zero-fits max_uint16 (ek_string fields src),
            uint_or_zero-fits max_uint16 (ek_string fields dst),
          )
  ]

  read_ports-fit :
      (layers : GoMap Bytes RawMessage)
      → ((read_ports unmarshal layers).0 ≤ 65535) × ((read_ports unmarshal layers).1 ≤ 65535)
  read_ports-fit layers = elim (Bool-cases (is_some (lookup (codes "tcp") layers))) [
    | inl e ↦
        rw e
          (layer_ports-fit layers (codes "tcp") (codes "tcp_tcp_srcport") (codes "tcp_tcp_dstport"))
    | inr e ↦
        rw e
          (layer_ports-fit layers (codes "udp") (codes "udp_udp_srcport") (codes "udp_udp_dstport"))
  ]

  number-frame_of : (frame : Fields) → (frame_of frame).number ≤ max_uint
  number-frame_of frame =
      ground (arith, parse_uint-fits max_uint (ek_string frame (codes "frame_frame_number")))

  number-read_frame :
      (layers : GoMap Bytes RawMessage) → (read_frame unmarshal layers).number ≤ max_uint
  number-read_frame layers = elim (Option-cases (layer_fields unmarshal layers (codes "frame"))) [
    | inl e ↦ rw (read_frame, e) (omega arith)
    | inr (frame, e) ↦ rw (read_frame, e) (number-frame_of frame)
  ]

  -- A line that holds an object gives a packet, whatever its layers hold: the number is a 64-bit and the
  -- ports are 16-bit numbers, the line is kept, and the packet has the layers of the line and no other,
  -- except for "frame", which it never has.
  pub parse_ek_packet_lem :
      (parse_addr : Bytes → Option Addr) (unmarshal_ek : Bytes → Option EkObject) (line : Bytes)
      (obj : EkObject)
      → unmarshal_ek line ≡ some obj
      → HasUniqueKeys obj.layers
      → (pkt : Packet) × (parse_ek_packet unmarshal parse_addr unmarshal_ek line ≡ some pkt)
        × (pkt.number ≤ max_uint)
        × (pkt.src.port ≤ 65535)
        × (pkt.dst.port ≤ 65535)
        × (pkt.raw ≡ line)
        × ((name : Bytes)
            → lookup name pkt.layers
              ≡ (if bytes_beq name (codes "frame") then none else lookup name obj.layers))
  unfolding parse_ek_packet
  parse_ek_packet_lem parse_addr unmarshal_ek line obj e u =
      let ips = read_addresses unmarshal parse_addr obj.layers in
      let fit = read_ports-fit obj.layers in
      (
        packet_of unmarshal parse_addr line obj,
        rw (parse_ek_packet, e) refl,
        number-read_frame obj.layers,
        port-endpoint_of ips.0 (read_ports unmarshal obj.layers).0 fit.0,
        port-endpoint_of ips.1 (read_ports unmarshal obj.layers).1 fit.1,
        refl,
        λ name. ground (arith, lookup-copy_layers obj.layers [] name u),
      )
