-- ===== src/Base/Text.antt =====
-- The functions of Go's package strings that the program applies to byte strings.
use Prim.Native.Nat.{ℕ, ◌+◌}
use mathlib.Core.Path.{◌≡◌, refl, ap, ◌∙◌}
use mathlib.Core.Bool.{Bool, true, false, ◌&&◌, ◌||◌}
use mathlib.Core.List.{List, [], ◌∷◌, ◌++◌}
use mathlib.Core.Option.{Option, none, some}
use native.Mathlib.Omega.{arith}
use localproxy.Base.Tests.{leb, nat_beq, nat_beq_iff, if◌then◌else◌}
use localproxy.Base.Lists.{Bytes}
use localproxy.Base.Equality.{bytes_beq}

-- `strings.HasPrefix`, with the text first.
abbrev pub has_prefix : Bytes → Bytes → Bool
has_prefix s [] = true
has_prefix [] (c ∷ p) = false
has_prefix (d ∷ s) (c ∷ p) = nat_beq d c && has_prefix s p

-- What follows a prefix.
abbrev pub strip_prefix : Bytes → Bytes → Option Bytes
strip_prefix s [] = some s
strip_prefix [] (c ∷ p) = none
strip_prefix (d ∷ s) (c ∷ p) = let rest = strip_prefix s p in if nat_beq d c then rest else none

-- `strings.TrimPrefix`
abbrev pub trim_prefix : Bytes → Bytes → Bytes
trim_prefix s p = elim (strip_prefix s p) [ none ↦ s | some rest ↦ rest ]

-- `strings.Contains(s, c)` for one byte.
abbrev pub has_byte : ℕ → Bytes → Bool
has_byte c [] = false
has_byte c (d ∷ s) = nat_beq d c || has_byte c s

-- `strings.ToLower` on ASCII text.
abbrev pub lower : ℕ → ℕ
lower c = if leb 65 c && leb c 90 then c + 32 else c

abbrev pub to_lower : Bytes → Bytes
to_lower [] = []
to_lower (c ∷ name) = lower c ∷ to_lower name

-- `strings.HasSuffix`
abbrev pub has_suffix : Bytes → Bytes → Bool
has_suffix suffix [] = bytes_beq [] suffix
has_suffix suffix (c ∷ s) = bytes_beq (c ∷ s) suffix || has_suffix suffix s

-- `strings.Contains`
abbrev pub contains : Bytes → Bytes → Bool
contains [] p = bytes_beq p []
contains (c ∷ s) p = has_prefix (c ∷ s) p || contains s p

-- `strings.TrimSuffix`
abbrev pub trim_suffix : Bytes → Bytes → Bytes
trim_suffix suffix [] = []
trim_suffix suffix (c ∷ s) =
    let rest = trim_suffix suffix s in if bytes_beq (c ∷ s) suffix then [] else c ∷ rest

-- The last element.
abbrev pub last_or {ℓ} : {A : Type ℓ} → A → List A → A
last_or d [] = d
last_or d (x ∷ xs) = last_or x xs

-- Puts a byte before the first piece.
abbrev pub on_head : ℕ → List Bytes → List Bytes
on_head c [] = (c ∷ []) ∷ []
on_head c (piece ∷ pieces) = (c ∷ piece) ∷ pieces

-- `strings.Split(s, sep)` for a separator of one byte.
unfoldable pub split : ℕ → Bytes → List Bytes
split sep [] = [] ∷ []
split sep (c ∷ s) = let rest = split sep s in if nat_beq c sep then [] ∷ rest else on_head c rest

-- `strings.Join(pieces, sep)` for a separator of one byte.
unfoldable pub join : ℕ → List Bytes → Bytes
join sep [] = []
join sep (piece ∷ []) = piece
join sep (piece ∷ next ∷ pieces) = piece ++ (sep ∷ join sep (next ∷ pieces))

-- No piece has the separator.
abbrev pub NoneHas : ℕ → List Bytes → Type 0
NoneHas sep [] = Unit {0}
NoneHas sep (piece ∷ pieces) = (has_byte sep piece ≡ false) × NoneHas sep pieces

pub split-plain : (sep : ℕ) (s : Bytes) → has_byte sep s ≡ false → split sep s ≡ s ∷ []
unfolding split
split-plain sep [] h = refl
split-plain sep (c ∷ s) h = ground (arith, split-plain sep s)

pub split-append :
    (sep : ℕ) (s t : Bytes) → has_byte sep s ≡ false → split sep (s ++ (sep ∷ t)) ≡ s ∷ split sep t
unfolding split
split-append sep [] t h = ground (arith, nat_beq_iff sep sep)
split-append sep (c ∷ s) t h = ground (arith, split-append sep s t)

-- Pieces that are joined can be split again, if there is one.
pub split-join :
    (sep : ℕ) (piece : Bytes) (pieces : List Bytes)
    → NoneHas sep (piece ∷ pieces)
    → split sep (join sep (piece ∷ pieces)) ≡ piece ∷ pieces
unfolding join
split-join sep piece [] h = split-plain sep piece h.0
split-join sep piece (next ∷ pieces) h =
    split-append sep piece (join sep (next ∷ pieces)) h.0
    ∙ ap (λ l. piece ∷ l) (split-join sep next pieces h.1)

NoneHas-on_head :
    (sep c : ℕ) (pieces : List Bytes)
    → nat_beq c sep ≡ false
    → NoneHas sep pieces
    → NoneHas sep (on_head c pieces)
NoneHas-on_head sep c [] n h = ground arith
NoneHas-on_head sep c (piece ∷ pieces) n h = ground arith

-- What a split leaves has no separator.
pub split-NoneHas : (sep : ℕ) (s : Bytes) → NoneHas sep (split sep s)
unfolding split
split-NoneHas sep [] = ground arith
split-NoneHas sep (c ∷ s) = ground (arith, split-NoneHas sep s, NoneHas-on_head sep c (split sep s))
