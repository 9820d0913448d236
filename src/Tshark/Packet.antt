-- ===== src/Tshark/Packet.antt =====
-- pkg/tshark/packet.go: the packet record.
use localproxy.Base.{ℕ, ℤ, pos, Bytes, Option, none, []}
use localproxy.Base.GoMap.{GoMap}
use localproxy.Net.{AddrPort, invalid}

-- A `json.RawMessage` is the bytes of a JSON value.
abbrev pub RawMessage : Type 0
RawMessage = Bytes

-- `timestamp` is the time in milliseconds since the epoch; `none` is the zero `time.Time`.
pub record Packet : Type 0 where
  pub number : ℕ  -- uint64
  pub timestamp : Option ℤ
  pub protocol : Bytes
  pub size : ℤ  -- the field `Length`, an int
  pub src : AddrPort
  pub dst : AddrPort
  pub layers : GoMap Bytes RawMessage
  pub raw : RawMessage

-- The zero `netip.AddrPort`.
abbrev pub no_endpoint : AddrPort
no_endpoint = record { ip = invalid; port = 0 }

-- `&Packet{layers: make(map…), raw: raw}`
abbrev pub bare_packet : RawMessage → Packet
bare_packet raw = record {
  number = 0;
  timestamp = none;
  protocol = [];
  size = pos 0;
  src = no_endpoint;
  dst = no_endpoint;
  layers = [];
  raw = raw;
}
