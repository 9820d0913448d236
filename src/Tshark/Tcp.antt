-- ===== src/Tshark/Tcp.antt =====
-- pkg/tshark/tcp.go: the TCP layer of a packet.
pub mod RoundTrip
mod Tests
use localproxy.Base.{
  ℕ, ℤ, pos, Bytes, codes, [], ◌++◌, Option, Bool, if◌then◌else◌, bytes_beq, bytes_eq,
}
use localproxy.Base.GoMap.{lookup}
use localproxy.Base.Uint.{uint_or_zero, parse_uint}
use localproxy.Base.Atoi.{atoi}
use localproxy.Tshark.Json.{Json, Fields, ek_string, ek_bool, ek_payload_bytes}

pub record TcpFlags : Type 0 where
  pub syn : Bool
  pub ack : Bool
  pub fin : Bool
  pub rst : Bool
  pub psh : Bool
  pub urg : Bool

-- The ports and the window are uint16, `seq` and `ack` uint32.
pub record TcpLayer : Type 0 where
  pub src_port : ℕ
  pub dst_port : ℕ
  pub seq : ℕ
  pub ack : ℕ
  pub window : ℕ
  pub flags : TcpFlags
  pub size : ℤ  -- the field `Length`
  pub payload : Bytes
  pub fields : Fields

abbrev pub max_uint16 : ℕ
max_uint16 = 65535

abbrev pub max_uint32 : ℕ
max_uint32 = 4294967295

-- `TCPLayer.Field`
abbrev pub field : TcpLayer → Bytes → Option Json
field t name = lookup (codes "tcp_tcp_" ++ name) t.fields

-- `if v != "" { t.Length, _ = strconv.Atoi(v) }`
abbrev pub int_or_zero : Bytes → ℤ
int_or_zero v = if bytes_beq v [] then pos 0 else atoi v

-- `parseTCPLayer`
unfoldable pub parse_tcp_layer : Fields → TcpLayer
parse_tcp_layer fields = record {
  src_port = uint_or_zero max_uint16 (ek_string fields (codes "tcp_tcp_srcport"));
  dst_port = uint_or_zero max_uint16 (ek_string fields (codes "tcp_tcp_dstport"));
  seq = uint_or_zero max_uint32 (ek_string fields (codes "tcp_tcp_seq"));
  ack = uint_or_zero max_uint32 (ek_string fields (codes "tcp_tcp_ack"));
  window = uint_or_zero max_uint16 (ek_string fields (codes "tcp_tcp_window_size_value"));
  size = int_or_zero (ek_string fields (codes "tcp_tcp_len"));
  payload = ek_payload_bytes fields (codes "tcp_tcp_payload_raw");
  flags = record {
    syn = ek_bool fields (codes "tcp_tcp_flags_syn");
    ack = ek_bool fields (codes "tcp_tcp_flags_ack");
    fin = ek_bool fields (codes "tcp_tcp_flags_fin");
    rst = ek_bool fields (codes "tcp_tcp_flags_reset");
    psh = ek_bool fields (codes "tcp_tcp_flags_push");
    urg = ek_bool fields (codes "tcp_tcp_flags_urg");
  };
  fields = fields;
}
