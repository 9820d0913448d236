-- ===== src/Base/Decimal.antt =====
-- `fmt.Sprintf("%d", n)` and `fmt.Sscanf(s, "%d", &p)` for the non-negative integers of the program.
use Prim.Native.Nat.{ℕ, zero, suc, ◌+◌, ◌-◌, ◌*◌, ◌/◌, ◌%◌, ◌<◌, ◌≤◌}
use mathlib.Core.Path.{◌≡◌, sym, ap, ◌∙◌}
use mathlib.Core.Bool.{◌&&◌}
use mathlib.Core.List.{[], ◌∷◌}
use native.Mathlib.Omega.{arith}
use localproxy.Base.Tests.{ltb, leb, if◌then◌else◌}
use localproxy.Base.Lists.{Bytes, length}

-- The digits of `n` before `out`; a number below 2 ^ k takes fewer than k + 1 rounds.
unfoldable pub digits_onto : ℕ → ℕ → Bytes → Bytes
digits_onto zero n out = out
digits_onto (suc fuel) n out =
    let rest = digits_onto fuel (n / 10) ((b'0' + n % 10) ∷ out) in
    if ltb n 10 then (b'0' + n) ∷ out else rest

-- `n + 1` rounds are enough for `n`.
unfoldable pub itoa : ℕ → Bytes
unfolding digits_onto
itoa n = digits_onto (suc n) n []

-- Reads digits up to the first byte that is none; no digit at all leaves the variable as it was.
scan_from : ℕ → Bytes → ℕ
scan_from acc [] = acc
scan_from acc (c ∷ s) =
    let rest = scan_from (acc * 10 + (c - b'0')) s in if leb b'0' c && leb c b'9' then rest else acc

unfoldable pub scan_d : Bytes → ℕ
unfolding scan_from
scan_d s = scan_from 0 s

scan_from-digits_onto :
    (fuel n : ℕ) (out : Bytes) → n < fuel → scan_from 0 (digits_onto fuel n out) ≡ scan_from n out
unfolding scan_from digits_onto
scan_from-digits_onto zero n out h = absurd (omega arith)
scan_from-digits_onto (suc fuel) n out h =
    ground (arith, scan_from-digits_onto fuel (n / 10) ((b'0' + n % 10) ∷ out))

pub scan_d-itoa : (n : ℕ) → scan_d (itoa n) ≡ n
unfolding scan_d itoa scan_from
scan_d-itoa n = scan_from-digits_onto (suc n) n [] (omega arith)

pub itoa-injective : (m n : ℕ) → itoa m ≡ itoa n → m ≡ n
itoa-injective m n h = sym (scan_d-itoa m) ∙ ap scan_d h ∙ scan_d-itoa n

length-digits_onto :
    (fuel n : ℕ) (out : Bytes) → length (digits_onto fuel n out) ≤ fuel + length out
unfolding digits_onto
length-digits_onto zero n out = omega arith
length-digits_onto (suc fuel) n out =
    ground (arith, length-digits_onto fuel (n / 10) ((b'0' + n % 10) ∷ out))

digits_onto-le : (fuel n : ℕ) (out : Bytes) → length out ≤ length (digits_onto fuel n out)
unfolding digits_onto
digits_onto-le zero n out = omega arith
digits_onto-le (suc fuel) n out =
    ground (arith, digits_onto-le fuel (n / 10) ((b'0' + n % 10) ∷ out))

-- A decimal has a digit, and no more digits than the number plus one.
pub length-itoa : (n : ℕ) → (0 < length (itoa n)) × (length (itoa n) ≤ n + 1)
unfolding itoa
length-itoa n = (
  ground (arith, digits_onto-le n (n / 10) ((b'0' + n % 10) ∷ [])),
  omega (arith, length-digits_onto (suc n) n []),
)
