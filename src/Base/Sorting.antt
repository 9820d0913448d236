-- ===== src/Base/Sorting.antt =====
-- `sort.Slice` by a key of bytes, and counting. `sort.Slice` leaves the order of equal keys open; the keys of
-- the lists that are sorted here differ.
use mathlib.Core.Path.{◌≡◌, refl}
use mathlib.Core.Bool.{Bool, true, false, ◌&&◌, ◌||◌}
use mathlib.Core.List.{List, [], ◌∷◌, ◌++◌}
use Prim.Native.Nat.{ℕ, ◌+◌}
use native.Mathlib.Omega.{arith}
use localproxy.Base.Tests.{if◌then◌else◌, ltb, nat_beq}
use localproxy.Base.Lists.{Bytes, keep_if}

-- `a < b` on strings.
abbrev pub bytes_lt : Bytes → Bytes → Bool
bytes_lt s [] = false
bytes_lt [] (d ∷ t) = true
bytes_lt (c ∷ s) (d ∷ t) = ltb c d || (nat_beq c d && bytes_lt s t)

abbrev pub one_if : Bool → ℕ
one_if true = 1
one_if false = 0

module _ {ℓ} {A : Type ℓ} where
  abbrev pub insert_by : (A → Bytes) → A → List A → List A
  insert_by key x [] = x ∷ []
  insert_by key x (y ∷ ys) =
      let rest = insert_by key x ys in if bytes_lt (key y) (key x) then y ∷ rest else x ∷ y ∷ ys

  abbrev pub sort_by : (A → Bytes) → List A → List A
  sort_by key [] = []
  sort_by key (x ∷ xs) = insert_by key x (sort_by key xs)

  -- How many elements pass a Boolean test.
  abbrev pub count : (A → Bool) → List A → ℕ
  count p [] = 0
  count p (x ∷ xs) = one_if (p x) + count p xs

  pub count-append : (p : A → Bool) (xs ys : List A) → count p (xs ++ ys) ≡ count p xs + count p ys
  count-append p [] ys = omega arith
  count-append p (x ∷ xs) ys = omega (arith, count-append p xs ys)

  count-insert_by :
      (p : A → Bool) (key : A → Bytes) (x : A) (ys : List A)
      → count p (insert_by key x ys) ≡ one_if (p x) + count p ys
  count-insert_by p key x [] = refl
  count-insert_by p key x (y ∷ ys) = ground (arith, count-insert_by p key x ys)

  pub count-sort_by :
      (p : A → Bool) (key : A → Bytes) (xs : List A) → count p (sort_by key xs) ≡ count p xs
  count-sort_by p key [] = refl
  count-sort_by p key (x ∷ xs) =
      omega (arith, count-insert_by p key x (sort_by key xs), count-sort_by p key xs)

  count-keep_if :
      (p q : A → Bool) (xs : List A) → count p (keep_if q xs) ≡ count (λ x. q x && p x) xs
  count-keep_if p q [] = refl
  count-keep_if p q (x ∷ xs) = ground (arith, count-keep_if p q xs)

  pub count-kept_sorted :
      (p q : A → Bool) (key : A → Bytes) (xs : List A)
      → count p (keep_if q (sort_by key xs)) ≡ count p (keep_if q xs)
  count-kept_sorted p q key xs = omega (
    arith,
    count-keep_if p q xs,
    count-keep_if p q (sort_by key xs),
    count-sort_by (λ x. q x && p x) key xs,
  )

  -- A test that is the disjoint union of two, element by element.
  pub count-split :
      (p q r : A → Bool) (xs : List A)
      → ((x : A) → one_if (r x) ≡ one_if (p x) + one_if (q x))
      → count r xs ≡ count p xs + count q xs
  count-split p q r [] h = refl
  count-split p q r (x ∷ xs) h = omega (arith, h x, count-split p q r xs h)
