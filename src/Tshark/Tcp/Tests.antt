-- ===== src/Tshark/Tcp/Tests.antt =====
-- TCP headers on small inputs, and the theorem at a concrete input.
use localproxy.Base.{◌≡◌, refl, pos, codes, [], ◌∷◌, true, false, arith}
use localproxy.Base.Uint.{parse_uint, scan_uint}
use localproxy.Tshark.Json.{number, string, Fields}
use localproxy.Tshark.Tcp.{TcpLayer, parse_tcp_layer}
use localproxy.Tshark.Tcp.RoundTrip.{IsHeader, render, parse_tcp_layer-render}

-- A port that is too large, and one that is no string, are dropped; a flag may be a text.
abbrev odd_fields : Fields
odd_fields =
    (codes "tcp_tcp_srcport", string (codes "65536"))
    ∷ (codes "tcp_tcp_dstport", number (codes "443"))
    ∷ (codes "tcp_tcp_flags_syn", string (codes "1"))
    ∷ []

reads_odd_fields :
    let t = parse_tcp_layer odd_fields in
    (t.src_port ≡ 0) × (t.dst_port ≡ 0) × (t.flags.syn ≡ true) × (t.flags.ack ≡ false)
unfolding parse_tcp_layer parse_uint scan_uint
reads_odd_fields = (refl, refl, refl, refl)

abbrev header : TcpLayer
header = record {
  src_port = 5432;
  dst_port = 40000;
  seq = 4294967295;
  ack = 7;
  window = 512;
  flags = record { syn = false; ack = true; fin = false; rst = false; psh = true; urg = false };
  size = pos 3;
  payload = 1 ∷ 171 ∷ 255 ∷ [];
  fields = [];
}

header-IsHeader : IsHeader header 3
header-IsHeader = record {
  src_fits = omega arith;
  dst_fits = omega arith;
  seq_fits = omega arith;
  ack_fits = omega arith;
  window_fits = omega arith;
  size_is = refl;
  size_fits = omega arith;
  payload_is = (omega arith, (omega arith, (omega arith, tt)));
}

parse_tcp_layer-render_example :
    parse_tcp_layer (render header 3) ≡ record header { fields = render header 3 }
parse_tcp_layer-render_example = parse_tcp_layer-render header 3 header-IsHeader
