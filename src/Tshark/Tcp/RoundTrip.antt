-- ===== src/Tshark/Tcp/RoundTrip.antt =====
-- A TCP header that is rendered as EK fields is read back.
use localproxy.Base.{
  ℕ, ◌≤◌, ◌≡◌, refl, ap, sym, length-itoa, pos, Bytes, codes, [], ◌∷◌, if◌then◌else◌, itoa, arith,
  bytes_beq, bytes_beq_iff, bytes_eq,
}
use localproxy.Base.Uint.{uint_or_zero-itoa}
use localproxy.Base.Hex.{hex_encode, hex_decode, AreBytes, hex_decode-hex_encode}
use localproxy.Base.Atoi.{max_int, atoi-itoa}
use localproxy.Tshark.Json.{string, bool, Fields}
use localproxy.Tshark.Tcp.{TcpLayer, max_uint16, max_uint32, int_or_zero, parse_tcp_layer}

-- The numbers fit, and the payload is one of bytes.
pub record IsHeader (t : TcpLayer) (n : ℕ) : Type 0 where
  pub src_fits : t.src_port ≤ 65535
  pub dst_fits : t.dst_port ≤ 65535
  pub seq_fits : t.seq ≤ 4294967295
  pub ack_fits : t.ack ≤ 4294967295
  pub window_fits : t.window ≤ 65535
  pub size_is : t.size ≡ pos n
  pub size_fits : n ≤ max_int
  pub payload_is : AreBytes t.payload

-- The fields of a header, as tshark writes them.
abbrev pub render : TcpLayer → ℕ → Fields
render t n =
    (codes "tcp_tcp_srcport", string (itoa t.src_port))
    ∷ (codes "tcp_tcp_dstport", string (itoa t.dst_port))
    ∷ (codes "tcp_tcp_len", string (itoa n))
    ∷ (codes "tcp_tcp_seq", string (itoa t.seq))
    ∷ (codes "tcp_tcp_ack", string (itoa t.ack))
    ∷ (codes "tcp_tcp_window_size_value", string (itoa t.window))
    ∷ (codes "tcp_tcp_flags_urg", bool t.flags.urg)
    ∷ (codes "tcp_tcp_flags_ack", bool t.flags.ack)
    ∷ (codes "tcp_tcp_flags_push", bool t.flags.psh)
    ∷ (codes "tcp_tcp_flags_reset", bool t.flags.rst)
    ∷ (codes "tcp_tcp_flags_syn", bool t.flags.syn)
    ∷ (codes "tcp_tcp_flags_fin", bool t.flags.fin)
    ∷ (codes "tcp_tcp_payload_raw", string (hex_encode t.payload))
    ∷ []

int_or_zero-itoa : (n : ℕ) → n ≤ max_int → int_or_zero (itoa n) ≡ pos n
int_or_zero-itoa n h = ground (arith, atoi-itoa n h, bytes_beq_iff (itoa n) [], length-itoa n)

payload-hex_encode :
    (s : Bytes)
    → AreBytes s
    → (if bytes_beq (hex_encode s) [] then [] else hex_decode (hex_encode s)) ≡ s
payload-hex_encode [] v = refl
payload-hex_encode (b ∷ s) v = hex_decode-hex_encode (b ∷ s) v

-- A header whose numbers fit is read back from its fields: ports, sequence numbers, window, length,
-- flags and payload.
pub parse_tcp_layer-render :
    (t : TcpLayer) (n : ℕ)
    → IsHeader t n
    → parse_tcp_layer (render t n) ≡ record t { fields = render t n }
unfolding parse_tcp_layer
parse_tcp_layer-render t n v =
    rw
      (
        uint_or_zero-itoa max_uint16 t.src_port v.src_fits,
        uint_or_zero-itoa max_uint16 t.dst_port v.dst_fits,
        uint_or_zero-itoa max_uint32 t.seq v.seq_fits,
        uint_or_zero-itoa max_uint32 t.ack v.ack_fits,
        uint_or_zero-itoa max_uint16 t.window v.window_fits,
        int_or_zero-itoa n v.size_fits,
        payload-hex_encode t.payload v.payload_is,
      )
      (ap (λ l. record t { size = l; fields = render t n }) (sym v.size_is))
