-- ===== src/Dashboard/Detail.antt =====
-- internal/dashboard/packets.go: `servePacketDetail`, which shows one packet. The values that the template
-- gets stand for the page. `none` is a panic.
pub mod Shown
mod Tests
use localproxy.Base.{
  ℕ, ◌+◌, ℤ, pos, negsuc, suc, Bytes, codes, List, [], ◌∷◌, ◌++◌, length, Option, none, some, Bool,
  true, false, ◌||◌, if◌then◌else◌, bytes_beq, bytes_eq, itoa,
}
use localproxy.Base.GoMap.{GoMap, lookup}
use localproxy.Base.Text.{join}
use localproxy.Base.Uint.{parse_uint}
use localproxy.Base.Atoi.{max_uint}
use localproxy.Net.{AddrPort}
use localproxy.Dashboard.Backend.{Backend}
use localproxy.Dashboard.Http.{Response, http_error, written}
use localproxy.Tshark.Packet.{Packet, RawMessage}
use localproxy.Tshark.Json.{Json}
use localproxy.Tshark.Tcp.{TcpFlags, TcpLayer}
use localproxy.Tshark.PgSql.{
  PgMessage, pg_startup, pg_auth_request, pg_query, pg_parse, pg_bind, pg_error,
  pg_parameter_status, pg_row_description, pg_data_row, pg_unknown, PgParameter, PgColumnDesc,
  message_type,
}
use localproxy.Tshark.Parse.{Layered, found, layer_not_found, malformed, layer_names, tcp, pgsql}
use localproxy.Tshark.Buffer.{PacketBuffer, Found, hit, miss, nil_panic, get}

pub record DetailField : Type 0 where
  pub label : Bytes
  pub value : Bytes
  pub mono : Bool

pub record DetailMessage : Type 0 where
  pub kind : Bytes  -- the field `Type`
  pub fields : List DetailField

pub record TcpDetail : Type 0 where
  pub seq : ℕ
  pub ack : ℕ
  pub flags_str : Bytes
  pub window : ℕ
  pub payload_len : ℕ

pub record Detail : Type 0 where
  pub number : ℕ
  pub size : ℤ  -- "Length"
  pub layers : List Bytes
  pub tcp : Option TcpDetail
  pub pg_messages : List DetailMessage  -- absent where it is empty

abbrev pub flag_name : Bool → Bytes → List Bytes
flag_name set name = if set then name ∷ [] else []

-- The names of the flags that are set, or "(none)".
abbrev pub flags_text : TcpFlags → Bytes
flags_text f =
    let text = join b' ' (
      flag_name f.syn (codes "SYN")
      ++ (flag_name f.ack (codes "ACK")
          ++ (flag_name f.fin (codes "FIN")
              ++ (flag_name f.rst (codes "RST")
                  ++ (flag_name f.psh (codes "PSH") ++ flag_name f.urg (codes "URG")))))) in
    if bytes_beq text [] then codes "(none)" else text

abbrev pub tcp_detail : Layered TcpLayer → Option TcpDetail
tcp_detail (found t) = some (record {
  seq = t.seq;
  ack = t.ack;
  flags_str = flags_text t.flags;
  window = t.window;
  payload_len = length t.payload;
})
tcp_detail _ = none

abbrev pub plain : Bytes → Bytes → DetailField
plain label value = record { label = label; value = value; mono = false }

abbrev pub monospaced : Bytes → Bytes → DetailField
monospaced label value = record { label = label; value = value; mono = true }

-- `if value != "" { … }`
abbrev pub if_given : Bytes → Bytes → List DetailField
if_given label value = if bytes_beq value [] then [] else plain label value ∷ []

abbrev pub parameter_fields : List PgParameter → List DetailField
parameter_fields [] = []
parameter_fields (p ∷ parameters) = plain p.name p.value ∷ parameter_fields parameters

abbrev pub column_fields : List PgColumnDesc → List DetailField
column_fields [] = []
column_fields (col ∷ cols) =
    monospaced col.name (codes "type=" ++ col.type_oid) ∷ column_fields cols

-- The values of a data row, from index `i`.
pub value_fields : ℕ → List Bytes → List DetailField
value_fields i [] = []
value_fields i (v ∷ values) =
    monospaced (codes "[" ++ (itoa i ++ codes "]")) v ∷ value_fields (i + 1) values

-- `strconv.Itoa`
abbrev pub int_text : ℤ → Bytes
int_text (pos n) = itoa n
int_text (negsuc n) = codes "-" ++ itoa (suc n)

-- The `switch` over the type of a message.
pub message_fields : PgMessage → List DetailField
unfolding value_fields
message_fields (pg_query query _) = monospaced (codes "Query") query ∷ []
message_fields (pg_parse statement query _) =
    if_given (codes "Statement") statement ++ (monospaced (codes "Query") query ∷ [])
message_fields (pg_bind portal statement _) =
    if_given (codes "Portal") portal ++ if_given (codes "Statement") statement
message_fields (pg_error e _) =
    plain (codes "Severity") e.severity
    ∷ monospaced (codes "Code") e.code
    ∷ plain (codes "Message") e.message
    ∷ []
message_fields (pg_startup parameters _) = parameter_fields parameters
message_fields (pg_parameter_status name value _) = plain name value ∷ []
message_fields (pg_auth_request auth_type _) = plain (codes "Auth Type") (int_text auth_type) ∷ []
message_fields (pg_row_description cols _) =
    plain (codes "Columns") (itoa (length cols)) ∷ column_fields cols
message_fields (pg_data_row values _) = value_fields 0 values
message_fields (pg_unknown _ _ _) = []

pub message_details : List PgMessage → List DetailMessage
unfolding message_fields
message_details [] = []
message_details (m ∷ messages) =
    record { kind = message_type m; fields = message_fields m } ∷ message_details messages

abbrev pub pg_details : Layered (List PgMessage) → List DetailMessage
pg_details (found messages) = message_details messages
pg_details _ = []

module _ (unmarshal : RawMessage → Option Json) where
  pub packet_detail : Packet → Detail
  unfolding tcp pgsql message_details join
  packet_detail pkt = record {
    number = pkt.number;
    size = pkt.size;
    layers = layer_names pkt;
    tcp = tcp_detail (tcp unmarshal pkt);
    pg_messages = pg_details (pgsql unmarshal pkt);
  }

  -- From `buf.Get(number)` on.
  abbrev pub shown : Found → Option (Response Detail)
  shown (hit pkt) = some (written (packet_detail pkt))
  shown miss = some (http_error 404 (codes "packet not found"))
  shown nil_panic = none

  -- `servePacketDetail`, with the query's two values; a packet source gives the buffer of an endpoint.
  pub serve_packet_detail :
      GoMap Bytes Backend
      → Option (AddrPort → Option PacketBuffer)
      → Bytes
      → Bytes
      → Option (Response Detail)
  unfolding packet_detail
  serve_packet_detail backends source subdomain number_str =
      let (number, fine) = parse_uint max_uint number_str in
      if bytes_beq subdomain [] || bytes_beq number_str []
      then some (http_error 400 (codes "subdomain and number required"))
      else if fine
      then elim (lookup subdomain backends) [
        | none ↦ some (http_error 404 (codes "service not found"))
        | some backend ↦ elim source [
          | none ↦ some (http_error 503 (codes "packet capture not available"))
          | some buffer_of ↦ elim (buffer_of backend.endpoint) [
            | none ↦ some (http_error 404 (codes "no packet buffer"))
            | some buf ↦ shown (get buf number)
          ]
        ]
      ]
      else some (http_error 400 (codes "invalid packet number"))
