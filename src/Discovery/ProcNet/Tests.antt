-- ===== src/Discovery/ProcNet/Tests.antt =====
-- The reader of /proc/net/tcp on small inputs, and the theorem at a concrete row.
use localproxy.Base.{
  ◌*◌, ◌+◌, ◌≡◌, refl, Bytes, codes, List, [], ◌∷◌, ◌++◌, Option, none, some, bytes_eq, arith,
}
use localproxy.Base.Atoi.{parse_int}
use localproxy.Base.Text.{split}
use localproxy.Base.Uint.{scan_uint, scan_digits}
use localproxy.Net.{v4}
use localproxy.Discovery.ProcNet.{
  words_from, line_words, hex_digits, unsigned_hex, parse_hex, hex_byte, row_address, row_listener,
  parse_row, parse_rows, inode_to_pid, parse_proc_net, get_listening_ports,
}
use localproxy.Discovery.ProcNet.Rows.{Row, parse_row_lem}
use localproxy.Discovery.ProcNet.Words.{line_of}

abbrev header : Bytes
header =
    codes
      "  sl  local_address rem_address   st tx_queue rx_queue tr tm->when retrnsmt   uid  timeout inode"

-- A socket that listens on 127.0.0.1:8080, one on port 80, and one that does not listen.
abbrev lines : List Bytes
lines =
    header
    ∷ codes
        "   0: 0100007F:1F90 00000000:0000 0A 00000000:00000000 00:00000000 00000000  1000        0 4242 1"
    ∷ codes
        "   1: 00000000:0050 00000000:0000 0A 00000000:00000000 00:00000000 00000000     0        0 4242 1"
    ∷ codes
        "   2: 0100007F:1F91 0100007F:D431 01 00000000:00000000 00:00000000 00000000  1000        0 4242 1"
    ∷ []

abbrev fds : List (Bytes × Option Bytes)
fds =
    (codes "/proc/77/fd/3", some (codes "socket:[4242]"))
    ∷ (codes "/proc/77/fd/4", some (codes "/dev/null"))
    ∷ []

reads :
    parse_proc_net (some lines) fds
    ≡ some (record { endpoint = record { ip = v4 2130706433; port = 8080 }; pid = 77 } ∷ [])
unfolding parse_proc_net parse_rows parse_row line_words words_from split parse_hex unsigned_hex
    hex_digits hex_byte row_address row_listener inode_to_pid parse_int scan_uint scan_digits
reads = refl

-- A missing /proc/net/tcp6 is no error.
without_v6 : get_listening_ports (some (header ∷ [])) none [] [] ≡ some []
unfolding get_listening_ports parse_proc_net parse_rows
without_v6 = refl

abbrev row : Row
row = record {
  sl = codes "0:";
  remote = codes "00000000:0000";
  queues = codes "00000000:00000000";
  timer = codes "00:00000000";
  retransmits = codes "00000000";
  uid = codes "1000";
  timeout = codes "0";
  rest = codes "1" ∷ [];
}

-- The row, padded as the kernel pads it.
abbrev padded : List (Bytes × Bytes)
padded =
    (codes "0:", codes " ")
    ∷ (codes "0100007F:1F90", codes " ")
    ∷ (codes "00000000:0000", codes " ")
    ∷ (codes "0A", codes " ")
    ∷ (codes "00000000:00000000", codes " ")
    ∷ (codes "00:00000000", codes " ")
    ∷ (codes "00000000", codes "  ")
    ∷ (codes "1000", codes "        ")
    ∷ (codes "0", codes " ")
    ∷ (codes "4242", codes " ")
    ∷ (codes "1", codes "    ")
    ∷ []

parse_row_lem_example :
    parse_row ((codes "4242", 77) ∷ []) (codes "   " ++ line_of padded)
    ≡ some (record {
      endpoint = record { ip = v4 (((127 * 256 + 0) * 256 + 0) * 256 + 1); port = 8080 };
      pid = 77;
    })
parse_row_lem_example =
    parse_row_lem ((codes "4242", 77) ∷ []) row 127 0 0 1 8080 (codes "4242") 77 (codes "   ")
      padded (omega arith) (omega arith) (omega arith) (omega arith) (omega arith) (omega arith)
      refl refl (ground arith) refl
