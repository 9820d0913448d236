-- ===== src/Dashboard/LogBuffer/Space.antt =====
-- `strings.TrimSpace`, which drainBuffer of internal/dashboard/logbuffer.go calls: Unicode's white
-- space in UTF-8.
use localproxy.Base.{
  ℕ, zero, suc, Bytes, [], ◌∷◌, Bool, ◌||◌, ◌&&◌, if◌then◌else◌, leb, length, drop, nat_beq,
}

abbrev between : ℕ → ℕ → ℕ → Bool
between lo hi c = leb lo c && leb c hi

-- Tabs, line breaks and the space.
abbrev pub is_space1 : ℕ → Bool
is_space1 c = between 9 13 c || nat_beq c 32

-- U+0085 and U+00A0.
abbrev is_space2 : ℕ → ℕ → Bool
is_space2 a b = nat_beq a 194 && (nat_beq b 133 || nat_beq b 160)

-- U+1680, U+2000 to U+200A, U+2028, U+2029, U+202F, U+205F and U+3000.
abbrev is_space3 : ℕ → ℕ → ℕ → Bool
is_space3 a b c =
    (nat_beq a 225 && nat_beq b 154 && nat_beq c 128)
    || (nat_beq a 226
        && ((nat_beq b 128 && (between 128 138 c || between 168 169 c || nat_beq c 175))
            || (nat_beq b 129 && nat_beq c 159)))
    || (nat_beq a 227 && nat_beq b 128 && nat_beq c 128)

-- The bytes of the white space at the start, 0 if there is none.
space_ahead : Bytes → ℕ
space_ahead [] = 0
space_ahead (a ∷ []) = if is_space1 a then 1 else 0
space_ahead (a ∷ b ∷ []) = if is_space1 a then 1 else if is_space2 a b then 2 else 0
space_ahead (a ∷ b ∷ c ∷ _) =
    if is_space1 a then 1 else if is_space2 a b then 2 else if is_space3 a b c then 3 else 0

-- The same on the reversed string, for the white space at the end.
space_behind : Bytes → ℕ
space_behind [] = 0
space_behind (a ∷ []) = if is_space1 a then 1 else 0
space_behind (b ∷ a ∷ []) = if is_space1 b then 1 else if is_space2 a b then 2 else 0
space_behind (c ∷ b ∷ a ∷ _) =
    if is_space1 c then 1 else if is_space2 b c then 2 else if is_space3 a b c then 3 else 0

-- Drops what the test finds, until it finds nothing. Every round but the last drops a byte, so the
-- length and one more are rounds enough.
trim_while : (Bytes → ℕ) → ℕ → Bytes → Bytes
trim_while ahead zero s = s
trim_while ahead (suc n) s =
    let rest = trim_while ahead n (drop (ahead s) s) in if nat_beq (ahead s) 0 then s else rest

abbrev reverse_onto : Bytes → Bytes → Bytes
reverse_onto [] out = out
reverse_onto (c ∷ s) out = reverse_onto s (c ∷ out)

unfoldable pub trim_space : Bytes → Bytes
unfolding trim_while space_ahead space_behind
trim_space s =
    let front = trim_while space_ahead (suc (length s)) s in
    reverse_onto (trim_while space_behind (suc (length front)) (reverse_onto front [])) []
