-- ===== src/Base/Suffix.antt =====
-- Suffixes of a text, and the first and the last piece of a split.
use mathlib.Core.Path.{◌≡◌, refl, ap}
use mathlib.Core.Logic.{◌≢◌}
use mathlib.Core.Bool.{true, false, ◌||◌}
use mathlib.Core.List.{List, [], ◌∷◌, ◌++◌}
use Prim.Native.Nat.{ℕ}
use native.Mathlib.Omega.{arith}
use localproxy.Base.Tests.{nat_beq, nat_beq_iff, Bool-cases}
use mathlib.Core.Logic.{inl, inr}
use localproxy.Base.Lists.{Bytes, length, length-append}
use localproxy.Base.Equality.{bytes_beq, bytes_beq_iff}
use localproxy.Base.Text.{has_byte, has_suffix, trim_suffix, last_or, split, split-plain}

longer : (c : ℕ) (s p : Bytes) → bytes_beq (c ∷ (s ++ p)) p ≡ false
longer c s p = elim (Bool-cases (bytes_beq (c ∷ (s ++ p)) p)) [
  | inr e ↦ e
  | inl e ↦
      absurd (omega (arith, ap length ((bytes_beq_iff (c ∷ (s ++ p)) p).0 e), length-append s p))
]

pub has_suffix-append : (s p : Bytes) → has_suffix p (s ++ p) ≡ true
has_suffix-append [] [] = refl
has_suffix-append [] (c ∷ p) = ground (arith, bytes_beq_iff (c ∷ p) (c ∷ p))
has_suffix-append (c ∷ s) p = ground (arith, has_suffix-append s p)

pub trim_suffix-append : (s : Bytes) (c : ℕ) (p : Bytes) → trim_suffix (c ∷ p) (s ++ (c ∷ p)) ≡ s
trim_suffix-append [] c p = ground (arith, bytes_beq_iff (c ∷ p) (c ∷ p))
trim_suffix-append (d ∷ s) c p = ground (arith, longer d s (c ∷ p), trim_suffix-append s c p)

last_or-append : (d : ℕ) (s : Bytes) (c : ℕ) (p : Bytes) → last_or d (s ++ (c ∷ p)) ≡ last_or c p
last_or-append d [] c p = refl
last_or-append d (e ∷ s) c p = last_or-append e s c p

-- A text with a suffix ends like the suffix.
last_or-has_suffix :
    (d : ℕ) (s : Bytes) (c : ℕ) (p : Bytes)
    → has_suffix (c ∷ p) s ≡ true
    → last_or d s ≡ last_or c p
last_or-has_suffix d [] c p h = ground arith
last_or-has_suffix d (e ∷ s) c p h = elim (Bool-cases (bytes_beq (e ∷ s) (c ∷ p))) [
  | inl same ↦ ap (last_or d) ((bytes_beq_iff (e ∷ s) (c ∷ p)).0 same)
  | inr other ↦ last_or-has_suffix e s c p (ground (arith, h, other))
]

-- Two texts that end differently are no suffixes of one text.
pub has_suffix-other :
    (s : Bytes) (c : ℕ) (p : Bytes) (d : ℕ) (q : Bytes)
    → last_or c p ≢ last_or d q
    → has_suffix (c ∷ p) (s ++ (d ∷ q)) ≡ false
has_suffix-other s c p d q ne = elim (Bool-cases (has_suffix (c ∷ p) (s ++ (d ∷ q)))) [
  | inr e ↦ e
  | inl e ↦ ground (arith, ne, last_or-has_suffix 0 (s ++ (d ∷ q)) c p e, last_or-append 0 s d q)
]

-- A split at a text with the separator: the last piece is not the first.
split-shape :
    (sep : ℕ) (s t : Bytes)
    → has_byte sep t ≡ false
    → (first : Bytes) × (rest : List Bytes) × (split sep (s ++ (sep ∷ t)) ≡ first ∷ rest)
      × ((d : Bytes) → last_or d rest ≡ t)
unfolding split
split-shape sep [] t h =
    ([], t ∷ [], ground (arith, nat_beq_iff sep sep, split-plain sep t h), λ d. refl)
split-shape sep (c ∷ s) t h =
    let (first, rest, e, last) = split-shape sep s t h in
    elim (Bool-cases (nat_beq c sep)) [
      | inl cut ↦ ([], first ∷ rest, rw (cut, e) refl, λ d. last first)
      | inr inside ↦ (c ∷ first, rest, rw (inside, e) refl, last)
    ]

-- Behind the last separator the last piece is left.
pub last_or-split :
    (sep : ℕ) (d s t : Bytes) → has_byte sep t ≡ false → last_or d (split sep (s ++ (sep ∷ t))) ≡ t
last_or-split sep d s t h = let (first, rest, e, last) = split-shape sep s t h in rw e (last first)

-- A byte of a concatenation is in one of its parts.
pub has_byte-append : (c : ℕ) (s t : Bytes) → has_byte c (s ++ t) ≡ (has_byte c s || has_byte c t)
has_byte-append c [] t = refl
has_byte-append c (d ∷ s) t = ground (arith, has_byte-append c s t)
