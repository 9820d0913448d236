-- ===== src/Base/Recent.antt =====
-- The abstract view of a bounded buffer: the last `n` of all that was added, oldest first.
use Prim.Native.Nat.{ℕ, zero, suc, ◌+◌, ◌-◌, ◌≤◌}
use mathlib.Core.Path.{◌≡◌, refl, ap, sym, ◌∙◌}
use mathlib.Core.List.{List, [], ◌∷◌, ◌++◌}
use native.Mathlib.Omega.{arith}
use localproxy.Base.Lists.{length, length-append, drop}

module _ {ℓ} {A : Type ℓ} where
  -- The last `n` elements of a list.
  abbrev pub last_n : ℕ → List A → List A
  last_n n xs = drop (length xs - n) xs

  pub drop-append_le :
      (k : ℕ) (xs ys : List A) → k ≤ length xs → drop k (xs ++ ys) ≡ drop k xs ++ ys
  drop-append_le zero xs ys h = refl
  drop-append_le (suc k) [] ys h = absurd (omega arith)
  drop-append_le (suc k) (x ∷ xs) ys h = drop-append_le k xs ys (omega arith)

  drop-nil : (k : ℕ) → drop {A = A} k [] ≡ []
  drop-nil zero = refl
  drop-nil (suc k) = refl

  drop-drop : (j k : ℕ) (xs : List A) → drop j (drop k xs) ≡ drop (k + j) xs
  drop-drop j zero xs = ap (λ n. drop n xs) (omega arith)
  drop-drop j (suc k) [] = drop-nil j ∙ sym (drop-nil (suc k + j))
  drop-drop j (suc k) (x ∷ xs) =
      let e : suc (k + j) ≡ suc k + j = omega arith in
      drop-drop j k xs ∙ ap (λ n. drop n (x ∷ xs)) e

  pub length-drop_sub : (k : ℕ) (xs : List A) → length (drop k xs) ≡ length xs - k
  length-drop_sub zero xs = omega arith
  length-drop_sub (suc k) [] = omega arith
  length-drop_sub (suc k) (x ∷ xs) = omega (arith, length-drop_sub k xs)

  -- To keep the last `n` of what was kept and of what is new is to keep the last `n` of it all.
  pub last_n-append : (n : ℕ) (xs ys : List A) → last_n n (last_n n xs ++ ys) ≡ last_n n (xs ++ ys)
  last_n-append n xs ys =
      rw (← drop-append_le (length xs - n) xs ys (omega arith), drop-drop)
        (ap (λ k. drop k (xs ++ ys))
          (omega (arith, length-drop_sub (length xs - n) (xs ++ ys), length-append xs ys)))
