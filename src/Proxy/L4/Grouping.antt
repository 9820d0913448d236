-- ===== src/Proxy/L4/Grouping.antt =====
-- How `BuildL4App` groups the routes by their TCP ports.
use localproxy.Base.{
  ℕ, zero, suc, ℤ, ◌<◌, ◌≡◌, ◌≢◌, ◌⊎◌, refl, sym, ap, ◌∙◌, pos, negsuc, is_positive, List, [], ◌∷◌,
  ◌++◌, append_assoc, append-nil, Bool, false, if◌then◌else◌, nat_beq, nat_beq_iff, nat_eq, keep_if,
  Bool-cases, inl, inr, arith,
}
use localproxy.Base.GoMap.{GoMap, put, lookup-put, HasUniqueKeys, HasUniqueKeys-put}
use localproxy.Proxy.Route.{Route}
use localproxy.Proxy.L4.{at_port, add_by_port, group_by_port}

-- The route asks for this TCP port.
abbrev pub is_at_port : ℕ → Route → Bool
is_at_port port r = elim r.tcp_port [ pos n ↦ nat_beq n port | negsuc _ ↦ false ]

at_port-add_by_port :
    (r : Route) (m : GoMap ℕ (List Route)) (port : ℕ)
    → 0 < port
    → at_port (add_by_port r m) port
      ≡ (if is_at_port port r then at_port m port ++ (r ∷ []) else at_port m port)
unfolding add_by_port
at_port-add_by_port r m port h =
    elim r.tcp_port
      as (λ p.
        at_port (elim p [ pos (suc n) ↦ put (suc n) (at_port m (suc n) ++ (r ∷ [])) m | _ ↦ m ])
          port
        ≡ (if (elim p [ pos n ↦ nat_beq n port | negsuc _ ↦ false ])
            then at_port m port ++ (r ∷ [])
            else at_port m port)) [
              | pos zero ↦ ground arith
              | pos (suc n) ↦ ground (
                arith,
                nat_beq_iff (suc n) port,
                lookup-put (suc n) port (at_port m (suc n) ++ (r ∷ [])) m,
              )
              | negsuc n ↦ refl
            ]

pub at_port-group_by_port :
    (rs : List Route) (m : GoMap ℕ (List Route)) (port : ℕ)
    → 0 < port
    → at_port (group_by_port rs m) port ≡ at_port m port ++ keep_if (is_at_port port) rs
unfolding group_by_port
at_port-group_by_port [] m port h = sym (append-nil (at_port m port))
at_port-group_by_port (r ∷ rs) m port h = ground (
  arith,
  at_port-add_by_port r m port,
  at_port-group_by_port rs (add_by_port r m) port,
  append_assoc (at_port m port) (r ∷ []) (keep_if (is_at_port port) rs),
)

-- Every port of the map is positive and has a route.
abbrev pub AllFilled : GoMap ℕ (List Route) → Type 0
AllFilled [] = Unit {0}
AllFilled ((port, rs) ∷ m) = (0 < port) × (rs ≢ []) × AllFilled m

AllFilled-put :
    (port : ℕ) (rs : List Route) (m : GoMap ℕ (List Route))
    → 0 < port
    → rs ≢ []
    → AllFilled m
    → AllFilled (put port rs m)
AllFilled-put port rs [] h ne v = (h, ne, tt)
AllFilled-put port rs ((q, l) ∷ m) h ne v = ground (arith, AllFilled-put port rs m h ne)

snoc-ne : (rs : List Route) (r : Route) → rs ++ (r ∷ []) ≢ []
snoc-ne [] r e = cc
snoc-ne (q ∷ rs) r e = cc

pub record IsGrouped (m : GoMap ℕ (List Route)) : Type 0 where
  pub unique : HasUniqueKeys m
  pub filled : AllFilled m

add_by_port-IsGrouped :
    (r : Route) (m : GoMap ℕ (List Route)) → IsGrouped m → IsGrouped (add_by_port r m)
unfolding add_by_port
add_by_port-IsGrouped r m v =
    elim r.tcp_port
      as (λ p.
        IsGrouped
          (elim p [ pos (suc n) ↦ put (suc n) (at_port m (suc n) ++ (r ∷ [])) m | _ ↦ m ])) [
            | pos zero ↦ v
            | pos (suc n) ↦
                let grown = at_port m (suc n) ++ (r ∷ []) in
                record {
                  unique = HasUniqueKeys-put (suc n) grown m v.unique;
                  filled =
                      AllFilled-put (suc n) grown m (omega arith) (snoc-ne (at_port m (suc n)) r)
                        v.filled;
                }
            | negsuc n ↦ v
          ]

pub group_by_port-IsGrouped :
    (rs : List Route) (m : GoMap ℕ (List Route)) → IsGrouped m → IsGrouped (group_by_port rs m)
unfolding group_by_port
group_by_port-IsGrouped [] m v = v
group_by_port-IsGrouped (r ∷ rs) m v =
    group_by_port-IsGrouped rs (add_by_port r m) (add_by_port-IsGrouped r m v)

-- The route asks for a TCP port above 0.
abbrev pub wants_tcp : Route → Bool
wants_tcp r = is_positive r.tcp_port

is_positive-cases : (p : ℤ) → (is_positive p ≡ false) ⊎ ((port : ℕ) × (0 < port) × (p ≡ pos port))
is_positive-cases (pos zero) = inl refl
is_positive-cases (pos (suc n)) = inr (suc n, omega arith, refl)
is_positive-cases (negsuc n) = inl refl

wants_tcp-filed :
    (rs : List Route) (r : Route) (port : ℕ)
    → 0 < port
    → r.tcp_port ≡ pos port
    → keep_if (is_at_port port) (r ∷ rs) ≢ []
wants_tcp-filed rs r port h e empty = ground (arith, nat_beq_iff port port)

pub keep_if-wants_tcp :
    (rs : List Route)
    → (keep_if wants_tcp rs ≡ []) ⊎ ((port : ℕ) × (0 < port) × (keep_if (is_at_port port) rs ≢ []))
keep_if-wants_tcp [] = inl refl
keep_if-wants_tcp (r ∷ rs) = elim (is_positive-cases r.tcp_port) [
  | inr (port, h, e) ↦ inr (port, h, wants_tcp-filed rs r port h e)
  | inl small ↦ elim (keep_if-wants_tcp rs) [
    | inl none_there ↦ inl (ground arith)
    | inr (port, h, some_there) ↦ inr (port, h, λ empty. some_there (ground arith))
  ]
]

add_by_port-skips :
    (r : Route) (m : GoMap ℕ (List Route)) → wants_tcp r ≡ false → add_by_port r m ≡ m
unfolding add_by_port
add_by_port-skips r m h = ground arith

pub group_by_port-none :
    (rs : List Route) (m : GoMap ℕ (List Route))
    → keep_if wants_tcp rs ≡ []
    → group_by_port rs m ≡ m
unfolding group_by_port
group_by_port-none [] m h = refl
group_by_port-none (r ∷ rs) m h = elim (Bool-cases (wants_tcp r)) [
  | inl wants ↦ absurd (ground (arith, wants))
  | inr small ↦
      ap (group_by_port rs) (add_by_port-skips r m small)
      ∙ group_by_port-none rs m (ground (arith, small))
]
