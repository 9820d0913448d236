-- ===== src/Discovery/ProcNet/Digits.antt =====
-- Numbers to base 16, as the kernel prints them in /proc/net/tcp, are read back.
use localproxy.Base.{
  ℕ, pos, ◌+◌, ◌-◌, ◌*◌, ◌/◌, ◌%◌, ◌^◌, ◌<◌, ◌≡◌, ◌∙◌, refl, ap, Bytes, [], ◌∷◌, some, true, false,
  if◌then◌else◌, ltb, nat_beq, bytes_eq, arith,
}
use localproxy.Base.Hex.{hex_value}
use localproxy.Discovery.ProcNet.{hex_digits, unsigned_hex, parse_hex, hex_byte}

-- A digit to base 16, as the kernel prints it.
abbrev pub upper_digit : ℕ → ℕ
upper_digit n = if ltb n 10 then b'0' + n else b'A' + (n - 10)

abbrev pub upper_hex : Bytes → Bytes
upper_hex [] = []
upper_hex (b ∷ s) = upper_digit (b / 16) ∷ upper_digit (b % 16) ∷ upper_hex s

hex_value-upper_digit : (n : ℕ) → n < 16 → hex_value (upper_digit n) ≡ some n
hex_value-upper_digit n h = ground arith

no_sign :
    (n : ℕ)
    → n < 16
    → (nat_beq (upper_digit n) b'-' ≡ false) × (nat_beq (upper_digit n) b'+' ≡ false)
no_sign n h = ground arith

hex_digits-cons :
    (n c d : ℕ) (s : Bytes)
    → hex_value c ≡ some d
    → hex_digits n (c ∷ s) ≡ hex_digits (n * 16 + d) s
unfolding hex_digits
hex_digits-cons n c d s e = rw (hex_digits, e) refl

parse_hex-unsigned :
    (c : ℕ) (s : Bytes) (n : ℕ)
    → nat_beq c b'-' ≡ false
    → nat_beq c b'+' ≡ false
    → hex_digits 0 (c ∷ s) ≡ some n
    → n < 2 ^ 31
    → parse_hex (c ∷ s) ≡ some (pos n)
unfolding parse_hex unsigned_hex
parse_hex-unsigned c s n minus plus e h =
    let small : ltb n (2 ^ 31) ≡ true = ground arith in rw (parse_hex, minus, plus, e, small) refl

hex_digits-pair :
    (n b : ℕ) (s : Bytes)
    → b < 256
    → hex_digits n (upper_digit (b / 16) ∷ upper_digit (b % 16) ∷ s) ≡ hex_digits (n * 256 + b) s
hex_digits-pair n b s h =
    hex_digits-cons n (upper_digit (b / 16)) (b / 16) (upper_digit (b % 16) ∷ s)
      (hex_value-upper_digit (b / 16) (omega (arith, h)))
    ∙ hex_digits-cons (n * 16 + b / 16) (upper_digit (b % 16)) (b % 16) s
        (hex_value-upper_digit (b % 16) (omega arith))
    ∙ ap (λ k. hex_digits k s) {x = (n * 16 + b / 16) * 16 + b % 16} (omega arith)

-- Numbers of two and of four digits are read back.
pub hex_byte-upper_hex : (b : ℕ) → b < 256 → hex_byte (upper_hex (b ∷ [])) ≡ pos b
unfolding hex_byte hex_digits
hex_byte-upper_hex b h =
    let hi : b / 16 < 16 = omega (arith, h) in
    let sign = no_sign (b / 16) hi in
    let digits : hex_digits 0 (upper_hex (b ∷ [])) ≡ some b =
      hex_digits-pair 0 b [] h ∙ ap some {x = 0 * 256 + b} (omega arith) in
    let whole =
      parse_hex-unsigned (upper_digit (b / 16)) (upper_digit (b % 16) ∷ []) b sign.0 sign.1 digits
        (omega (arith, h)) in
    rw (hex_byte, whole) refl

pub parse_hex-upper_hex :
    (p : ℕ) → p < 65536 → parse_hex (upper_hex (p / 256 ∷ p % 256 ∷ [])) ≡ some (pos p)
unfolding hex_digits
parse_hex-upper_hex p h =
    let hi : p / 256 < 256 = omega (arith, h) in
    let lo : p % 256 < 256 = omega arith in
    let sign = no_sign (p / 256 / 16) (omega (arith, hi)) in
    let digits : hex_digits 0 (upper_hex (p / 256 ∷ p % 256 ∷ [])) ≡ some p =
      hex_digits-pair 0 (p / 256) (upper_hex (p % 256 ∷ [])) hi
      ∙ hex_digits-pair (0 * 256 + p / 256) (p % 256) [] lo
      ∙ ap some {x = (0 * 256 + p / 256) * 256 + p % 256} (omega arith) in
    parse_hex-unsigned (upper_digit (p / 256 / 16))
      (upper_digit (p / 256 % 16) ∷ upper_hex (p % 256 ∷ [])) p sign.0 sign.1 digits
      (omega (arith, h))
