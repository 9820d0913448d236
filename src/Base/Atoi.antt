-- ===== src/Base/Atoi.antt =====
-- `strconv.Atoi` for a 64-bit int, with its error dropped: 0 for a text that is no number, and the
-- nearest int for one that is out of range.
use Prim.Native.Nat.{ℕ, zero, suc, ◌+◌, ◌/◌, ◌%◌, ◌≤◌, ◌<◌}
use mathlib.Core.Path.{◌≡◌, refl, subst, ◌∙◌}
use mathlib.Core.Logic.{inl, inr}
use mathlib.Core.Option.{Option, none, some}
use native.Mathlib.Omega.{arith}
use localproxy.Base.Decimal.{itoa, digits_onto}
use mathlib.Core.List.{[], ◌∷◌}
use localproxy.Base.Tests.{ltb, leb, nat_beq, Bool-cases, if◌then◌else◌}
use localproxy.Base.Lists.{Bytes}
use localproxy.Base.Integer.{ℤ, pos, negsuc}
use localproxy.Base.Uint.{Scanned, value, syntax_error, range_error, scan_uint, scan_uint-itoa}

-- 2 ^ 63 - 1
abbrev pub max_int : ℕ
max_int = 9223372036854775807

-- 2 ^ 64 - 1
abbrev pub max_uint : ℕ
max_uint = 18446744073709551615

abbrev pub negated : ℕ → ℤ
negated zero = pos 0
negated (suc n) = negsuc n

-- The digits after the sign, which are first read as a 64-bit number without one.
abbrev pub unsigned : Bytes → ℤ
unsigned s = elim (scan_uint max_uint s) [
  | value n ↦ pos (if ltb max_int n then max_int else n)
  | syntax_error ↦ pos 0
  | range_error ↦ pos max_int
]

abbrev pub signed : Bytes → ℤ
signed s = elim (scan_uint max_uint s) [
  | value n ↦ negated (if ltb max_int n then max_int + 1 else n)
  | syntax_error ↦ pos 0
  | range_error ↦ negated (max_int + 1)
]

unfoldable pub atoi : Bytes → ℤ
unfolding scan_uint
atoi [] = pos 0
atoi (c ∷ s) =
    if nat_beq c b'-' then signed s else if nat_beq c b'+' then unsigned s else unsigned (c ∷ s)

digits_onto-head :
    (fuel n : ℕ) (out : Bytes)
    → n < fuel
    → (c : ℕ) × (s : Bytes) × (digits_onto fuel n out ≡ c ∷ s) × (48 ≤ c)
unfolding digits_onto
digits_onto-head zero n out h = absurd (omega arith)
digits_onto-head (suc fuel) n out h = elim (Bool-cases (ltb n 10)) [
  | inl small ↦ ((48 + n), out, rw small refl, omega arith)
  | inr large ↦
      let rest = digits_onto-head fuel (n / 10) ((b'0' + n % 10) ∷ out) (ground arith) in
      (rest.0, rest.1, rw large rest.2, rest.3)
]

atoi-plain : (c : ℕ) (s : Bytes) → 48 ≤ c → atoi (c ∷ s) ≡ unsigned (c ∷ s)
unfolding atoi
atoi-plain c s h = ground arith

-- A decimal that is an int is read back.
pub atoi-itoa : (n : ℕ) → n ≤ max_int → atoi (itoa n) ≡ pos n
unfolding itoa
atoi-itoa n h =
    let (c, s, e, d) = digits_onto-head (suc n) n [] (omega arith) in
    let scanned : scan_uint max_uint (c ∷ s) ≡ value n =
      subst (λ t. scan_uint max_uint t ≡ value n) e
        (scan_uint-itoa max_uint n (omega (arith, h))) in
    rw e (atoi-plain c s d ∙ ground (arith, scanned))

abbrev pub positive : Scanned → Option ℤ
positive (value n) = if leb n max_int then some (pos n) else none
positive _ = none

abbrev pub negative : Scanned → Option ℤ
negative (value n) = if leb n (max_int + 1) then some (negated n) else none
negative _ = none

-- `strconv.ParseInt(s, 10, 64)`, `none` for an error.
unfoldable pub parse_int : Bytes → Option ℤ
unfolding scan_uint
parse_int [] = none
parse_int (c ∷ s) =
    if nat_beq c b'-'
    then negative (scan_uint max_uint s)
    else if nat_beq c b'+'
    then positive (scan_uint max_uint s)
    else positive (scan_uint max_uint (c ∷ s))
