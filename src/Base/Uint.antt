-- ===== src/Base/Uint.antt =====
-- `strconv.ParseUint(s, 10, bits)`, with the largest value that fits in place of `bits`.
use Prim.Native.Nat.{ℕ, suc, zero, ◌+◌, ◌-◌, ◌*◌, ◌/◌, ◌%◌, ◌<◌, ◌≤◌}
use mathlib.Core.Path.{◌≡◌, refl, ◌∙◌}
use mathlib.Core.Bool.{Bool, true, false, ◌&&◌}
use mathlib.Core.List.{[], ◌∷◌}
use native.Mathlib.Omega.{arith}
use localproxy.Base.Tests.{leb, if◌then◌else◌}
use localproxy.Base.Lists.{Bytes, length}
use localproxy.Base.Equality.{bytes_beq, bytes_beq_iff}
use localproxy.Base.Decimal.{itoa, digits_onto, length-itoa}

-- A number, a text that is none, or one that is too large; a text that is too large may go on with
-- anything.
pub data Scanned : Type 0 where
  value : ℕ → Scanned
  syntax_error : Scanned
  range_error : Scanned

abbrev pub is_digit : ℕ → Bool
is_digit c = leb b'0' c && leb c b'9'

-- The loop over the bytes.
unfoldable pub scan_digits : ℕ → ℕ → Bytes → Scanned
scan_digits max acc [] = value acc
scan_digits max acc (c ∷ s) =
    let n = acc * 10 + (c - b'0') in
    let rest = scan_digits max n s in
    if is_digit c then (if leb n max then rest else range_error) else syntax_error

unfoldable pub scan_uint : ℕ → Bytes → Scanned
unfolding scan_digits
scan_uint max [] = syntax_error
scan_uint max (c ∷ s) = scan_digits max 0 (c ∷ s)

-- The value, and whether there is no error.
abbrev pub outcome : ℕ → Scanned → ℕ × Bool
outcome max (value n) = (n, true)
outcome max syntax_error = (0, false)
outcome max range_error = (max, false)

unfoldable pub parse_uint : ℕ → Bytes → ℕ × Bool
unfolding scan_uint
parse_uint max s = outcome max (scan_uint max s)

-- `if v != "" { if n, err := strconv.ParseUint(v, 10, bits); err == nil { field = n } }`, on a field
-- that is 0.
abbrev pub uint_or_zero : ℕ → Bytes → ℕ
uint_or_zero max s =
    let (n, fine) = parse_uint max s in if bytes_beq s [] then 0 else if fine then n else 0

scan_digits-fits :
    (max acc : ℕ) (s : Bytes) (n : ℕ) → acc ≤ max → scan_digits max acc s ≡ value n → n ≤ max
unfolding scan_digits
scan_digits-fits max acc [] n h e = ground arith
scan_digits-fits max acc (c ∷ s) n h e =
    ground (arith, scan_digits-fits max (acc * 10 + (c - b'0')) s n)

scan_uint-fits : (max : ℕ) (s : Bytes) (n : ℕ) → scan_uint max s ≡ value n → n ≤ max
unfolding scan_uint
scan_uint-fits max [] n e = absurd (ground arith)
scan_uint-fits max (c ∷ s) n e = scan_digits-fits max 0 (c ∷ s) n (omega arith) e

outcome-fits : (max : ℕ) (r : Scanned) → ((n : ℕ) → r ≡ value n → n ≤ max) → (outcome max r).0 ≤ max
outcome-fits max (value n) h = h n refl
outcome-fits max syntax_error h = omega arith
outcome-fits max range_error h = omega arith

-- Whatever is read fits.
pub parse_uint-fits : (max : ℕ) (s : Bytes) → (parse_uint max s).0 ≤ max
unfolding parse_uint
parse_uint-fits max s = outcome-fits max (scan_uint max s) (scan_uint-fits max s)

pub uint_or_zero-fits : (max : ℕ) (s : Bytes) → uint_or_zero max s ≤ max
uint_or_zero-fits max s = ground (arith, parse_uint-fits max s)

scan_digits-digits_onto :
    (max fuel n : ℕ) (out : Bytes)
    → n < fuel
    → n ≤ max
    → scan_digits max 0 (digits_onto fuel n out) ≡ scan_digits max n out
unfolding scan_digits digits_onto
scan_digits-digits_onto max zero n out h f = absurd (omega arith)
scan_digits-digits_onto max (suc fuel) n out h f =
    ground (arith, scan_digits-digits_onto max fuel (n / 10) ((b'0' + n % 10) ∷ out))

scan_uint-nonempty : (max : ℕ) (s : Bytes) → 0 < length s → scan_uint max s ≡ scan_digits max 0 s
unfolding scan_uint
scan_uint-nonempty max [] h = absurd (omega arith)
scan_uint-nonempty max (c ∷ s) h = refl

-- A decimal that fits is read back.
pub scan_uint-itoa : (max n : ℕ) → n ≤ max → scan_uint max (itoa n) ≡ value n
unfolding itoa scan_digits
scan_uint-itoa max n h =
    scan_uint-nonempty max (itoa n) (length-itoa n).0
    ∙ scan_digits-digits_onto max (suc n) n [] (omega arith) h

pub uint_or_zero-itoa : (max n : ℕ) → n ≤ max → uint_or_zero max (itoa n) ≡ n
unfolding parse_uint
uint_or_zero-itoa max n h =
    ground (arith, scan_uint-itoa max n h, bytes_beq_iff (itoa n) [], length-itoa n)
