-- ===== src/Base/Hex.antt =====
-- `hex.DecodeString` with its error dropped, and `hex.EncodeToString`.
use Prim.Native.Nat.{ℕ, ◌+◌, ◌-◌, ◌*◌, ◌/◌, ◌%◌, ◌<◌}
use mathlib.Core.Path.{◌≡◌, refl, ap₂, ◌∙◌}
use mathlib.Core.Bool.{◌&&◌}
use mathlib.Core.List.{[], ◌∷◌}
use mathlib.Core.Option.{Option, none, some}
use native.Mathlib.Omega.{arith}
use localproxy.Base.Tests.{leb, ltb, if◌then◌else◌}
use localproxy.Base.Lists.{Bytes}

abbrev pub hex_value : ℕ → Option ℕ
hex_value c =
    if leb b'0' c && leb c b'9'
    then some (c - b'0')
    else if leb b'a' c && leb c b'f'
    then some (c - b'a' + 10)
    else if leb b'A' c && leb c b'F'
    then some (c - b'A' + 10)
    else none

-- The bytes up to the first pair that is not two hexadecimal digits.
pub hex_decode : Bytes → Bytes
hex_decode [] = []
hex_decode (c ∷ []) = []
hex_decode (c ∷ d ∷ s) =
    let rest = hex_decode s in
    elim (hex_value c) [
      | none ↦ []
      | some hi ↦ elim (hex_value d) [ none ↦ [] | some lo ↦ (hi * 16 + lo) ∷ rest ]
    ]

abbrev pub hex_digit : ℕ → ℕ
hex_digit n = if ltb n 10 then b'0' + n else b'a' + (n - 10)

abbrev pub hex_encode : Bytes → Bytes
hex_encode [] = []
hex_encode (b ∷ s) = hex_digit (b / 16) ∷ hex_digit (b % 16) ∷ hex_encode s

abbrev pub AreBytes : Bytes → Type 0
AreBytes [] = Unit {0}
AreBytes (b ∷ s) = (b < 256) × AreBytes s

hex_value-hex_digit : (n : ℕ) → n < 16 → hex_value (hex_digit n) ≡ some n
hex_value-hex_digit n h = ground arith

hex_decode-pair :
    (c d hi lo : ℕ) (s : Bytes)
    → hex_value c ≡ some hi
    → hex_value d ≡ some lo
    → hex_decode (c ∷ d ∷ s) ≡ (hi * 16 + lo) ∷ hex_decode s
unfolding hex_decode
hex_decode-pair c d hi lo s e f = rw (hex_decode, e, f) refl

pub hex_decode-hex_encode : (s : Bytes) → AreBytes s → hex_decode (hex_encode s) ≡ s
unfolding hex_decode
hex_decode-hex_encode [] v = refl
hex_decode-hex_encode (b ∷ s) v =
    let joined : b / 16 * 16 + b % 16 ≡ b = omega arith in
    hex_decode-pair (hex_digit (b / 16)) (hex_digit (b % 16)) (b / 16) (b % 16) (hex_encode s)
      (hex_value-hex_digit (b / 16) (omega (arith, v.0)))
      (hex_value-hex_digit (b % 16) (omega arith))
    ∙ ap₂ (λ x xs. x ∷ xs) joined (hex_decode-hex_encode s v.1)
