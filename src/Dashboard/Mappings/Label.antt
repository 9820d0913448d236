-- ===== src/Dashboard/Mappings/Label.antt =====
-- `isValidSubdomain` accepts the labels of a host name, in lower case.
use localproxy.Base.{
  ℕ, zero, suc, ◌+◌, ◌<◌, ◌≤◌, ◌≡◌, refl, Bytes, codes, [], dec_lt, if◌then◌else◌, ◌∷◌, length,
  Bool, true, false, ◌&&◌, ◌||◌, not, ltb, leb, nat_beq, arith,
}
use localproxy.Base.Text.{has_byte}
use localproxy.Dashboard.Mappings.{is_label_byte, valid_from, is_valid_subdomain}

abbrev pub is_dash : ℕ → Bool
is_dash c = nat_beq c b'-'

-- The letters, the digits and the dash, one by one.
abbrev pub alphabet : Bytes
alphabet = codes "abcdefghijklmnopqrstuvwxyz0123456789-"

pub in_alphabet : ℕ → Bool
in_alphabet c = has_byte c alphabet

-- Every byte is a letter, a digit or a dash.
abbrev pub all_allowed : Bytes → Bool
all_allowed [] = true
all_allowed (c ∷ s) = in_alphabet c && all_allowed s

abbrev pub ends_in_dash : Bytes → Bool
ends_in_dash [] = false
ends_in_dash (c ∷ []) = is_dash c
ends_in_dash (c ∷ d ∷ s) = ends_in_dash (d ∷ s)

abbrev pub starts_with_dash : Bytes → Bool
starts_with_dash [] = false
starts_with_dash (c ∷ s) = is_dash c

-- A label: up to 63 letters, digits and dashes, with no dash at either end.
abbrev pub is_label : Bytes → Bool
is_label s =
    ltb 0 (length s)
    && leb (length s) 63
    && (all_allowed s && (not (starts_with_dash s) && not (ends_in_dash s)))

all_below : ℕ → (ℕ → Bool) → Bool
all_below zero p = true
all_below (suc n) p = p n && all_below n p

all_below-true : (n : ℕ) (p : ℕ → Bool) (c : ℕ) → all_below n p ≡ true → c < n → p c ≡ true
unfolding all_below
all_below-true zero p c h lt = absurd (omega arith)
all_below-true (suc n) p c h lt = ground (arith, all_below-true n p c)

abbrev agrees : ℕ → Bool
agrees c = if is_label_byte c || is_dash c then in_alphabet c else not (in_alphabet c)

agrees_small : (c : ℕ) → c < 128 → agrees c ≡ true
unfolding all_below in_alphabet
agrees_small c h = all_below-true 128 agrees c refl h

in_alphabet_large : (c : ℕ) → 128 ≤ c → in_alphabet c ≡ false
unfolding in_alphabet
in_alphabet_large c h = ground arith

-- The two ranges and the dash are the alphabet.
in_alphabet-is_label_byte : (c : ℕ) → in_alphabet c ≡ (is_label_byte c || is_dash c)
in_alphabet-is_label_byte c = elim (dec_lt c 128) [
  | yes small ↦ ground (arith, agrees_small c small)
  | no large ↦ ground (arith, in_alphabet_large c)
]

-- Behind the first byte only the last byte may not be a dash.
valid_from-behind :
    (n i : ℕ) (c : ℕ) (s : Bytes)
    → n ≡ i + length (c ∷ s)
    → 0 < i
    → valid_from n i (c ∷ s) ≡ (all_allowed (c ∷ s) && not (ends_in_dash (c ∷ s)))
unfolding valid_from
valid_from-behind n i c [] e h = ground (arith, in_alphabet-is_label_byte c)
valid_from-behind n i c (d ∷ s) e h =
    ground (arith, in_alphabet-is_label_byte c, valid_from-behind n (i + 1) d s)

-- `isValidSubdomain` holds exactly of the labels.
pub is_valid_subdomain-is_label : (s : Bytes) → is_valid_subdomain s ≡ is_label s
unfolding is_valid_subdomain valid_from
is_valid_subdomain-is_label [] = refl
is_valid_subdomain-is_label (c ∷ []) = ground (arith, in_alphabet-is_label_byte c)
is_valid_subdomain-is_label (c ∷ d ∷ s) =
    ground (arith, in_alphabet-is_label_byte c, valid_from-behind (length (c ∷ d ∷ s)) 1 d s)
