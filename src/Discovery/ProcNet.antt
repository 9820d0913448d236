-- ===== src/Discovery/ProcNet.antt =====
-- internal/discovery/process_linux.go: the listeners that /proc/net/tcp and /proc/net/tcp6 name. What the
-- kernel writes there is ASCII.
pub mod Digits
pub mod Words
pub mod Rows
mod Tests
use localproxy.Base.{
  ℕ, ℤ, pos, negsuc, suc, ◌+◌, ◌-◌, ◌*◌, ◌%◌, ◌^◌, Bytes, codes, List, [], ◌∷◌, ◌++◌, Option, none,
  some, Bool, true, false, not, ◌||◌, ◌&&◌, if◌then◌else◌, ltb, leb, nat_beq, bytes_beq, bytes_eq,
  length, get_or, take, drop, is_some,
}
use localproxy.Base.Atoi.{parse_int, negated}
use localproxy.Base.GoMap.{GoMap, lookup, put}
use localproxy.Base.Hex.{hex_value}
use localproxy.Base.Text.{split, has_prefix, trim_prefix, trim_suffix}
use localproxy.Net.{Addr, v4, v6, AddrPort}
use localproxy.Dashboard.LogBuffer.Space.{is_space1}
use localproxy.Discovery.Process.{Listener}

-- `strings.Fields` on ASCII, with the word that has begun.
abbrev flush : Bytes → List Bytes → List Bytes
flush [] words = words
flush (c ∷ word) words = (c ∷ word) ∷ words

pub words_from : Bytes → Bytes → List Bytes
words_from word [] = flush word []
words_from word (c ∷ s) =
    let inside = words_from (word ++ (c ∷ [])) s in
    let after = words_from [] s in if is_space1 c then flush word after else inside

pub line_words : Bytes → List Bytes
unfolding words_from
line_words line = words_from [] line

-- The digits of a number to base 16, behind those that make `n`.
pub hex_digits : ℕ → Bytes → Option ℕ
hex_digits n [] = some n
hex_digits n (c ∷ s) = elim (hex_value c) [ none ↦ none | some d ↦ hex_digits (n * 16 + d) s ]

pub unsigned_hex : Bytes → Option ℕ
unfolding hex_digits
unsigned_hex [] = none
unsigned_hex (c ∷ s) = hex_digits 0 (c ∷ s)

-- `strconv.ParseInt(s, 16, 32)`; `none` is any of its errors.
pub parse_hex : Bytes → Option ℤ
unfolding unsigned_hex
parse_hex [] = none
parse_hex (c ∷ s) =
    if nat_beq c b'-'
    then elim (unsigned_hex s) [
      | none ↦ none
      | some n ↦ if leb n (2 ^ 31) then some (negated n) else none
    ]
    else elim (if nat_beq c b'+' then unsigned_hex s else unsigned_hex (c ∷ s)) [
      | none ↦ none
      | some n ↦ if ltb n (2 ^ 31) then some (pos n) else none
    ]

-- `hexByte`, of two bytes.
pub hex_byte : Bytes → ℤ
unfolding parse_hex
hex_byte s = elim (parse_hex s) [ none ↦ pos 0 | some n ↦ n ]

abbrev pub slice : Bytes → ℕ → ℕ → Bytes
slice s from upto = take (upto - from) (drop from s)

-- `netip.ParseAddr` on "%d.%d.%d.%d".
abbrev pub dotted : ℤ → ℤ → ℤ → ℤ → Option Addr
dotted (pos a) (pos b) (pos c) (pos d) =
    if leb a 255 && (leb b 255 && (leb c 255 && leb d 255))
    then some (v4 (((a * 256 + b) * 256 + c) * 256 + d))
    else none
dotted _ _ _ _ = none

-- The address of a row: an IPv6 address is taken for "::1", whatever it is.
pub row_address : Bytes → Option Addr
unfolding hex_byte
row_address addr_hex =
    if nat_beq (length addr_hex) 8
    then dotted (hex_byte (slice addr_hex 6 8)) (hex_byte (slice addr_hex 4 6))
        (hex_byte (slice addr_hex 2 4)) (hex_byte (slice addr_hex 0 2))
    else some (v6 1 [])

-- A row from its port on.
pub row_listener : GoMap Bytes ℕ → Bytes → ℤ → Bytes → Option Listener
unfolding row_address
row_listener pids addr_hex (negsuc n) inode = none
row_listener pids addr_hex (pos port) inode =
    if ltb port 1024 then none else elim (lookup inode pids) [
      | none ↦ none
      | some pid ↦ elim (row_address addr_hex) [
        | none ↦ none
        | some ip ↦ some (record { endpoint = record { ip = ip; port = port % 2 ^ 16 }; pid = pid })
      ]
    ]

-- A row from its local address on.
abbrev pub row_at : GoMap Bytes ℕ → List Bytes → Bytes → Option Listener
row_at pids (addr_hex ∷ port_hex ∷ []) inode = elim (parse_hex port_hex) [
  | none ↦ none
  | some port ↦ row_listener pids addr_hex port inode
]
row_at pids _ inode = none

-- One round of the loop over the rows.
pub parse_row : GoMap Bytes ℕ → Bytes → Option Listener
unfolding line_words row_listener parse_hex
parse_row pids line =
    let words = line_words line in
    if ltb (length words) 10 || not (bytes_beq (get_or words 3 []) (codes "0A"))
    then none
    else row_at pids (split b':' (get_or words 1 [])) (get_or words 9 [])

pub parse_rows : GoMap Bytes ℕ → List Bytes → List Listener
unfolding parse_row
parse_rows pids [] = []
parse_rows pids (line ∷ lines) =
    let rest = parse_rows pids lines in
    elim (parse_row pids line) [ none ↦ rest | some l ↦ l ∷ rest ]

-- The process of a path "/proc/<pid>/fd/<n>", where it has one.
abbrev pub fd_pid : Bytes → Option ℕ
fd_pid path = elim (parse_int (get_or (split b'/' path) 2 [])) [
  | none ↦ none
  | some n ↦ elim n [ pos pid ↦ some pid | negsuc _ ↦ none ]
]

-- `inodeToPID`, from the paths of the file descriptors and what they link to.
pub inode_to_pid : List (Bytes × Option Bytes) → GoMap Bytes ℕ → GoMap Bytes ℕ
inode_to_pid [] pids = pids
inode_to_pid ((path, none) ∷ fds) pids = inode_to_pid fds pids
inode_to_pid ((path, some link) ∷ fds) pids = inode_to_pid fds (
    if has_prefix link (codes "socket:[")
    then elim (fd_pid path) [
      | none ↦ pids
      | some pid ↦ put (trim_suffix (codes "]") (trim_prefix link (codes "socket:["))) pid pids
    ]
    else pids)

-- `parseProcNet`, from the lines of the file and the file descriptors.
pub parse_proc_net : Option (List Bytes) → List (Bytes × Option Bytes) → Option (List Listener)
unfolding parse_rows inode_to_pid
parse_proc_net none fds = none
parse_proc_net (some lines) fds = some (parse_rows (inode_to_pid fds []) (drop 1 lines))

-- `getListeningPorts`; the file descriptors are read once for each of the two files.
pub get_listening_ports :
    Option (List Bytes)
    → Option (List Bytes)
    → List (Bytes × Option Bytes)
    → List (Bytes × Option Bytes)
    → Option (List Listener)
unfolding parse_proc_net
get_listening_ports tcp tcp6 fds fds6 = elim (parse_proc_net tcp fds) [
  | none ↦ none
  | some entries ↦ elim (parse_proc_net tcp6 fds6) [
    | none ↦ some entries
    | some entries6 ↦ some (entries ++ entries6)
  ]
]
