-- ===== src/Net.antt =====
-- The parts of `net/netip` that the program compares and stores.
use localproxy.Base.{
  ℕ, Bytes, Bool, true, false, ◌&&◌, ◌≡◌, ◌↔◌, Eq, nat_beq, bytes_beq, bytes_beq_iff, arith,
}

-- `netip.Addr`: the zero value, an IPv4 address as its 32-bit number, or an IPv6 address with its zone.
pub data Addr : Type 0 where
  invalid : Addr
  v4 : ℕ → Addr
  v6 : ℕ → Bytes → Addr

-- `netip.AddrPort`; the port is a uint16.
pub record AddrPort : Type 0 where
  pub ip : Addr
  pub port : ℕ

-- `AddrPort.IsValid`
abbrev pub is_valid : AddrPort → Bool
is_valid a = elim a.ip [ invalid ↦ false | _ ↦ true ]

abbrev pub addr_beq : Addr → Addr → Bool
addr_beq invalid invalid = true
addr_beq (v4 a) (v4 b) = nat_beq a b
addr_beq (v6 a z) (v6 b y) = nat_beq a b && bytes_beq z y
addr_beq _ _ = false

pub addr_beq_iff : (a b : Addr) → (addr_beq a b ≡ true) ↔ (a ≡ b)
addr_beq_iff (v6 a z) (v6 b y) = ground (arith, bytes_beq_iff z y)
addr_beq_iff a b = ground arith

abbrev pub endpoint_beq : AddrPort → AddrPort → Bool
endpoint_beq a b = addr_beq a.ip b.ip && nat_beq a.port b.port

pub endpoint_beq_iff : (a b : AddrPort) → (endpoint_beq a b ≡ true) ↔ (a ≡ b)
endpoint_beq_iff a b = ground (arith, addr_beq_iff a.ip b.ip)

instance abbrev pub endpoint_eq : Eq AddrPort
endpoint_eq = record { beq = endpoint_beq; beq_iff = endpoint_beq_iff }

-- `netip.AddrFrom4([4]byte{127, 0, 0, 1})`
abbrev pub loopback : Addr
loopback = v4 2130706433
