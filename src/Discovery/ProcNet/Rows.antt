-- ===== src/Discovery/ProcNet/Rows.antt =====
-- A row of /proc/net/tcp, as the kernel prints it, and what is read from it.
use localproxy.Base.{
  ℕ, pos, ◌+◌, ◌*◌, ◌/◌, ◌%◌, ◌^◌, ◌≤◌, ◌<◌, ◌≡◌, ◌∙◌, refl, ap, Bytes, codes, List, [], ◌∷◌, ◌++◌,
  some, true, false, map, ltb, nat_beq, bytes_eq, length, arith,
}
use localproxy.Base.GoMap.{GoMap, lookup}
use localproxy.Base.Hex.{AreBytes}
use localproxy.Base.Text.{has_byte, split, split-append, split-plain}
use localproxy.Net.{v4}
use localproxy.Discovery.ProcNet.Digits.{
  upper_digit, upper_hex, hex_byte-upper_hex, parse_hex-upper_hex,
}
use localproxy.Discovery.ProcNet.Words.{all_spaces, AreWords, line_of, line_words-line_of}
use localproxy.Discovery.ProcNet.{row_address, row_listener, row_at, parse_row}

-- The four bytes of an IPv4 address, as the kernel prints them, and the port behind them.
abbrev pub local_address : ℕ → ℕ → ℕ → ℕ → ℕ → Bytes
local_address a b c d port =
    upper_hex (d ∷ c ∷ b ∷ a ∷ []) ++ (b':' ∷ upper_hex (port / 256 ∷ port % 256 ∷ []))

-- The other words of a row.
pub record Row : Type 0 where
  pub sl : Bytes
  pub remote : Bytes
  pub queues : Bytes
  pub timer : Bytes
  pub retransmits : Bytes
  pub uid : Bytes
  pub timeout : Bytes
  pub rest : List Bytes

abbrev pub words_of : Row → Bytes → Bytes → Bytes → List Bytes
words_of r address state inode =
    r.sl ∷ address ∷ r.remote ∷ state ∷ r.queues ∷ r.timer ∷ r.retransmits ∷ r.uid ∷ r.timeout
    ∷ inode ∷ r.rest

row_address-upper_hex :
    (a b c d : ℕ)
    → a < 256
    → b < 256
    → c < 256
    → d < 256
    → row_address (upper_hex (d ∷ c ∷ b ∷ a ∷ [])) ≡ some (v4 (((a * 256 + b) * 256 + c) * 256 + d))
unfolding row_address
row_address-upper_hex a b c d ha hb hc hd =
    rw
      (
        row_address,
        hex_byte-upper_hex a ha,
        hex_byte-upper_hex b hb,
        hex_byte-upper_hex c hc,
        hex_byte-upper_hex d hd,
      )
      (ground arith)

no_colon : (n : ℕ) → n < 16 → nat_beq (upper_digit n) b':' ≡ false
no_colon n h = ground arith

has_colon-upper_hex : (s : Bytes) → AreBytes s → has_byte b':' (upper_hex s) ≡ false
has_colon-upper_hex [] v = refl
has_colon-upper_hex (b ∷ s) v = ground (
  arith,
  no_colon (b / 16) (omega (arith, v.0)),
  no_colon (b % 16) (omega arith),
  has_colon-upper_hex s v.1,
)

-- The address and the port are the two parts of the word.
split-local_address :
    (a b c d port : ℕ)
    → a < 256
    → b < 256
    → c < 256
    → d < 256
    → port < 65536
    → split b':' (local_address a b c d port)
      ≡ upper_hex (d ∷ c ∷ b ∷ a ∷ []) ∷ upper_hex (port / 256 ∷ port % 256 ∷ []) ∷ []
split-local_address a b c d port ha hb hc hd high =
    let address = upper_hex (d ∷ c ∷ b ∷ a ∷ []) in
    let digits = upper_hex (port / 256 ∷ port % 256 ∷ []) in
    split-append b':' address digits
      (has_colon-upper_hex (d ∷ c ∷ b ∷ a ∷ []) (hd, (hc, (hb, (ha, tt)))))
    ∙ ap (λ l. address ∷ l)
        (split-plain b':' digits (
          has_colon-upper_hex (port / 256 ∷ port % 256 ∷ [])
            (omega (arith, high), (omega arith, tt))))

row_listener-known :
    (pids : GoMap Bytes ℕ) (address : Bytes) (n port : ℕ) (inode : Bytes) (pid : ℕ)
    → row_address address ≡ some (v4 n)
    → 1024 ≤ port
    → port < 65536
    → lookup inode pids ≡ some pid
    → row_listener pids address (pos port) inode
      ≡ some (record { endpoint = record { ip = v4 n; port = port }; pid = pid })
unfolding row_listener
row_listener-known pids address n port inode pid e low high known =
    let above : ltb port 1024 ≡ false = ground arith in
    let fits : port % 2 ^ 16 ≡ port = omega (arith, high) in
    rw (row_listener, above, known, e, fits) refl

ten_words : (n : ℕ) → ltb (n + 10) 10 ≡ false
ten_words n = ground arith

-- The row of a listening socket on an IPv4 address gives its listener, if the port is not below 1024 and
-- the process of the inode is known, whatever spaces stand before, between and behind its words.
pub parse_row_lem :
    (pids : GoMap Bytes ℕ) (r : Row) (a b c d port : ℕ) (inode : Bytes) (pid : ℕ) (lead : Bytes)
    (ws : List (Bytes × Bytes))
    → a < 256
    → b < 256
    → c < 256
    → d < 256
    → 1024 ≤ port
    → port < 65536
    → lookup inode pids ≡ some pid
    → all_spaces lead ≡ true
    → AreWords ws
    → map (λ e. e.0) ws ≡ words_of r (local_address a b c d port) (codes "0A") inode
    → parse_row pids (lead ++ line_of ws)
      ≡ some (record {
        endpoint = record { ip = v4 (((a * 256 + b) * 256 + c) * 256 + d); port = port };
        pid = pid;
      })
unfolding parse_row row_listener
parse_row_lem pids r a b c d port inode pid lead ws ha hb hc hd low high known l v words_eq =
    let address = local_address a b c d port in
    let upper = upper_hex (d ∷ c ∷ b ∷ a ∷ []) in
    let enough : ltb (length (words_of r address (codes "0A") inode)) 10 ≡ false =
      ap (λ n. ltb n 10) (omega arith) ∙ ten_words (length r.rest) in
    rw
      (
        parse_row,
        line_words-line_of lead ws l v ∙ words_eq,
        enough,
        split-local_address a b c d port ha hb hc hd high,
      )
      (rw (row_at, parse_hex-upper_hex port high)
        (row_listener-known pids upper (((a * 256 + b) * 256 + c) * 256 + d) port inode pid
          (row_address-upper_hex a b c d ha hb hc hd) low high known))
