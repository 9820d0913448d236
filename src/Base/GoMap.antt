-- ===== src/Base/GoMap.antt =====
-- A Go map: an association list with one entry for each key. The order of the entries is the order
-- in which `range` visits them; Go leaves it open, so the theorems are stated for every list.
use mathlib.Core.Path.{◌≡◌, refl}
use mathlib.Core.List.{List, [], ◌∷◌}
use mathlib.Core.Option.{Option, none, some}
use native.Mathlib.Omega.{arith}
use localproxy.Base.Tests.{if◌then◌else◌}
use localproxy.Base.Lists.{keep_if}
use mathlib.Core.Bool.{Bool}
use localproxy.Base.Equality.{Eq, ◌==◌}

abbrev pub GoMap {ℓ κ} : Type ℓ → Type κ → Type (ℓ ⊔ κ)
GoMap K V = List (K × V)

module _ {ℓ κ} {K : Type ℓ} {V : Type κ} ⦃e : Eq K⦄ where
  -- `v, ok := m[k]`
  abbrev pub lookup : K → GoMap K V → Option V
  lookup k [] = none
  lookup k ((j, v) ∷ m) = if j == k then some v else lookup k m

  -- `m[k] = v`
  abbrev pub put : K → V → GoMap K V → GoMap K V
  put k v [] = (k, v) ∷ []
  put k v ((j, w) ∷ m) = if j == k then (k, v) ∷ m else (j, w) ∷ put k v m

  -- `delete(m, k)`
  abbrev pub delete : K → GoMap K V → GoMap K V
  delete k [] = []
  delete k ((j, w) ∷ m) = let rest = delete k m in if j == k then rest else (j, w) ∷ rest

  pub lookup-put :
      (k j : K) (v : V) (m : GoMap K V)
      → lookup j (put k v m) ≡ (if k == j then some v else lookup j m)
  lookup-put k j v [] = refl
  lookup-put k j v ((i, w) ∷ m) =
      ground (arith, e.beq_iff k j, e.beq_iff i k, e.beq_iff i j, lookup-put k j v m)

  pub lookup-delete :
      (k j : K) (m : GoMap K V) → lookup j (delete k m) ≡ (if k == j then none else lookup j m)
  lookup-delete k j [] = ground arith
  lookup-delete k j ((i, w) ∷ m) =
      ground (arith, e.beq_iff k j, e.beq_iff i k, e.beq_iff i j, lookup-delete k j m)

  -- Each key has one entry.
  abbrev pub HasUniqueKeys : GoMap K V → Type (ℓ ⊔ κ)
  HasUniqueKeys [] = Unit
  HasUniqueKeys ((k, v) ∷ m) = (lookup k m ≡ none) × HasUniqueKeys m

  pub HasUniqueKeys-put :
      (k : K) (v : V) (m : GoMap K V) → HasUniqueKeys m → HasUniqueKeys (put k v m)
  HasUniqueKeys-put k v [] u = (refl, tt)
  HasUniqueKeys-put k v ((j, w) ∷ m) u =
      ground (arith, e.beq_iff j k, e.beq_iff k j, lookup-put k j v m, HasUniqueKeys-put k v m)

  pub HasUniqueKeys-delete : (k : K) (m : GoMap K V) → HasUniqueKeys m → HasUniqueKeys (delete k m)
  HasUniqueKeys-delete k [] u = tt
  HasUniqueKeys-delete k ((j, w) ∷ m) u =
      ground (arith, lookup-delete k j m, HasUniqueKeys-delete k m)

  lookup-keep_if-none :
      (p : K × V → Bool) (k : K) (m : GoMap K V) → lookup k m ≡ none → lookup k (keep_if p m) ≡ none
  lookup-keep_if-none p k [] h = refl
  lookup-keep_if-none p k ((j, w) ∷ m) h = ground (arith, lookup-keep_if-none p k m)

  -- To drop the entries that fail a test is to drop what a lookup finds when it fails the test.
  pub lookup-keep_if :
      (p : K × V → Bool) (k : K) (m : GoMap K V)
      → HasUniqueKeys m
      → lookup k (keep_if p m)
        ≡ elim (lookup k m) [ none ↦ none | some v ↦ if p (k, v) then some v else none ]
  lookup-keep_if p k [] u = refl
  lookup-keep_if p k ((j, w) ∷ m) u =
      ground (arith, e.beq_iff j k, lookup-keep_if p k m, lookup-keep_if-none p j m)

  pub HasUniqueKeys-keep_if :
      (p : K × V → Bool) (m : GoMap K V) → HasUniqueKeys m → HasUniqueKeys (keep_if p m)
  HasUniqueKeys-keep_if p [] u = tt
  HasUniqueKeys-keep_if p ((j, w) ∷ m) u =
      ground (arith, lookup-keep_if-none p j m, HasUniqueKeys-keep_if p m)
