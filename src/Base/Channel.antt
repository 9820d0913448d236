-- ===== src/Base/Channel.antt =====
-- Buffered Go channels on a heap. `none` is a panic: a send on, or a close of, a closed channel.
use Prim.Native.Nat.{ℕ, zero, suc, ◌≤◌}
use mathlib.Core.Path.{◌≡◌, refl, sym, ap}
use mathlib.Core.Bool.{Bool, true, false}
use mathlib.Core.List.{List, [], ◌∷◌, ◌++◌, append_assoc}
use mathlib.Core.Option.{Option, none, some}
use native.Mathlib.Omega.{arith}
use localproxy.Base.Tests.{ltb, nat_beq, if◌then◌else◌}
use localproxy.Base.Lists.{length, take, length-append}
use native.Mathlib.Decide.{dec_lt}

pub record Chan {ℓ} (A : Type ℓ) : Type ℓ where
  pub queue : List A
  pub room : ℕ
  pub closed : Bool

-- The channels by their addresses.
abbrev pub Channels {ℓ} : Type ℓ → Type ℓ
Channels A = ℕ → Chan A

module _ {ℓ} {A : Type ℓ} where
  -- `make(chan A, room)`
  abbrev pub make_chan : ℕ → Chan A
  make_chan room = record { queue = []; room = room; closed = false }

  abbrev pub store_chan : Channels A → ℕ → Chan A → Channels A
  store_chan h c ch d = if nat_beq c d then ch else h d

  -- `select { case ch <- a: default: }`: what does not fit is dropped.
  pub offer : A → Chan A → Option (Chan A)
  offer a ch =
      if ch.closed
      then none
      else if ltb (length ch.queue) ch.room
      then some (record ch { queue = ch.queue ++ (a ∷ []) })
      else some ch

  -- `close(ch)`
  unfoldable pub close_chan : Chan A → Option (Chan A)
  close_chan ch = if ch.closed then none else some (record ch { closed = true })

  -- What a non-blocking send makes of an open channel.
  abbrev pub accept : A → Chan A → Chan A
  accept a ch =
      if ltb (length ch.queue) ch.room then record ch { queue = ch.queue ++ (a ∷ []) } else ch

  pub offer-open : (a : A) (ch : Chan A) → ch.closed ≡ false → offer a ch ≡ some (accept a ch)
  unfolding offer
  offer-open a ch open_ch = ground arith

  pub closed-accept : (a : A) (ch : Chan A) → (accept a ch).closed ≡ ch.closed
  closed-accept a ch = ground arith

  -- All sends with no receive between them.
  unfoldable pub accept_all : List A → Chan A → Chan A
  accept_all [] ch = ch
  accept_all (a ∷ as') ch = accept_all as' (accept a ch)

  take-append_full : (n : ℕ) (xs ys : List A) → length xs ≡ n → take n (xs ++ ys) ≡ xs
  take-append_full zero [] ys h = refl
  take-append_full zero (x ∷ xs) ys h = absurd (omega arith)
  take-append_full (suc n) [] ys h = absurd (omega arith)
  take-append_full (suc n) (x ∷ xs) ys h = ap (λ l. x ∷ l) (take-append_full n xs ys (omega arith))

  take-append_small : (n : ℕ) (xs : List A) → length xs ≤ n → take n (xs ++ []) ≡ xs
  take-append_small zero [] h = refl
  take-append_small zero (x ∷ xs) h = absurd (omega arith)
  take-append_small (suc n) [] h = refl
  take-append_small (suc n) (x ∷ xs) h = ap (λ l. x ∷ l) (take-append_small n xs (omega arith))

  pub closed-accept_all : (as' : List A) (ch : Chan A) → (accept_all as' ch).closed ≡ ch.closed
  unfolding accept_all
  closed-accept_all [] ch = refl
  closed-accept_all (a ∷ as') ch =
      ground (arith, closed-accept_all as' (accept a ch), closed-accept a ch)

  accept_all-full :
      (as' : List A) (ch : Chan A) → length ch.queue ≡ ch.room → accept_all as' ch ≡ ch
  unfolding accept_all
  accept_all-full [] ch h = refl
  accept_all-full (a ∷ as') ch h = ground (arith, accept_all-full as' ch h)

  -- The queue keeps the oldest packets that fit, in order.
  pub queue-accept_all :
      (as' : List A) (ch : Chan A)
      → length ch.queue ≤ ch.room
      → (accept_all as' ch).queue ≡ take ch.room (ch.queue ++ as')
  unfolding accept_all
  queue-accept_all [] ch h = sym (take-append_small ch.room ch.queue h)
  queue-accept_all (a ∷ as') ch h = elim (dec_lt (length ch.queue) ch.room) [
    | yes p ↦ ground (
      arith,
      queue-accept_all as' (record ch { queue = ch.queue ++ (a ∷ []) }),
      length-append ch.queue (a ∷ []),
      append_assoc ch.queue (a ∷ []) as',
    )
    | no p ↦ ground (arith, accept_all-full as' ch, take-append_full ch.room ch.queue (a ∷ as'))
  ]
