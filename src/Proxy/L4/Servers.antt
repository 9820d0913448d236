-- ===== src/Proxy/L4/Servers.antt =====
-- Which servers `BuildL4App` makes, and from which routes.
use localproxy.Base.{
  ℕ, ◌<◌, ◌≡◌, ◌≢◌, ◌⊎◌, ◌↔◌, refl, sym, ap, subst, ◌∙◌, Bytes, List, [], ◌∷◌, Option, none, some,
  nat_beq, nat_beq_iff, bytes_beq, bytes_beq_iff, bytes_eq, nat_eq, itoa, itoa-injective, keep_if,
  Option-cases, Bool-cases, inl, inr, arith,
}
use localproxy.Base.GoMap.{GoMap, lookup, put, lookup-put}
use localproxy.Proxy.Route.{Route}
use localproxy.Proxy.L4.{
  Server, at_port, group_by_port, port_routes, server_key, port_server, build_servers, build_l4_app,
}
use localproxy.Proxy.L4.Grouping.{
  is_at_port, wants_tcp, at_port-group_by_port, AllFilled, IsGrouped, group_by_port-IsGrouped,
  keep_if-wants_tcp, group_by_port-none,
}

port_server-some :
    (port : ℕ) (rs : List Route) → rs ≢ [] → (s : Server) × (port_server port rs ≡ some s)
unfolding port_server port_routes
port_server-some port [] ne = absurd (ne refl)
port_server-some port (r ∷ rs) ne = (_, refl)

server_key_beq : (p q : ℕ) → bytes_beq (server_key p) (server_key q) ≡ nat_beq p q
server_key_beq p q =
    ground (arith, bytes_beq_iff (itoa p) (itoa q), itoa-injective p q, nat_beq_iff p q)

-- The second loop makes a server for every port of the map.
build_servers-lookup :
    (m : GoMap ℕ (List Route)) (servers : GoMap Bytes Server)
    → IsGrouped m
    → (servers' : GoMap Bytes Server) × (build_servers m servers ≡ some servers')
      × ((port : ℕ)
          → lookup (server_key port) servers' ≡ elim (lookup port m) [
            | none ↦ lookup (server_key port) servers
            | some rs ↦ port_server port rs
          ])
unfolding build_servers
build_servers-lookup [] servers v = (servers, refl, λ port. refl)
build_servers-lookup ((p, rs) ∷ m) servers v =
    let (s, e) = port_server-some p rs v.filled.1 in
    let rest : IsGrouped m = record { unique = v.unique.1; filled = v.filled.2 } in
    let (servers', f, q) = build_servers-lookup m (put (server_key p) s servers) rest in
    (
      servers',
      ground arith,
      (λ port. ground (
        arith,
        q port,
        server_key_beq p port,
        nat_beq_iff p port,
        lookup-put (server_key p) (server_key port) s servers,
        v.unique.0,
      )),
    )

filled-lookup : (m : GoMap ℕ (List Route)) (port : ℕ) → AllFilled m → lookup port m ≢ some []
filled-lookup [] port v e = cc
filled-lookup ((p, rs) ∷ m) port v e = ground (arith, filled-lookup m port v.2)

-- The server of a group that stands in a map of filled groups.
lookup-at_port :
    (m : GoMap ℕ (List Route)) (port : ℕ)
    → AllFilled m
    → elim (lookup port m) [ none ↦ none | some rs ↦ port_server port rs ]
      ≡ elim (at_port m port) [ [] ↦ none | r ∷ rs ↦ port_server port (r ∷ rs) ]
lookup-at_port m port v = elim (Option-cases (lookup port m)) [
  | inl e ↦ ground arith
  | inr ([], e) ↦ absurd (filled-lookup m port v e)
  | inr (r ∷ rs, e) ↦ ground arith
]

-- Every server of the second loop is that of a port above 0, or was there before.
build_servers-keys :
    (m : GoMap ℕ (List Route)) (servers servers' : GoMap Bytes Server) (key : Bytes)
    → AllFilled m
    → build_servers m servers ≡ some servers'
    → lookup key servers' ≢ none
    → (lookup key servers ≢ none) ⊎ ((port : ℕ) × (0 < port) × (key ≡ server_key port))
unfolding build_servers
build_servers-keys [] servers servers' key v e there = inl (λ gone. there (ground (arith, gone)))
build_servers-keys ((p, rs) ∷ m) servers servers' key v e there =
    let (s, made) = port_server-some p rs v.1 in
    let later : build_servers m (put (server_key p) s servers) ≡ some servers' = ground arith in
    elim (build_servers-keys m (put (server_key p) s servers) servers' key v.2 later there) [
      | inr known ↦ inr known
      | inl held ↦ elim (Bool-cases (bytes_beq (server_key p) key)) [
        | inl same ↦ inr (p, v.0, sym ((bytes_beq_iff (server_key p) key).0 same))
        | inr other ↦ inl (λ gone. held (ground (arith, lookup-put (server_key p) key s servers)))
      ]
    ]

some-ne-none : {A : Type 0} {a : A} → some a ≢ none
some-ne-none e = cc

-- What the servers are for these routes: those of the ports above 0 that some route asks for, each made from
-- all the routes that do, in their order, and no other.
abbrev pub Serves : List Route → Option (GoMap Bytes Server) → Type 0
Serves routes app =
    ((port : ℕ)
      → 0 < port
      → elim app [ none ↦ none | some servers ↦ lookup (server_key port) servers ]
        ≡ elim (keep_if (is_at_port port) routes) [
          | [] ↦ none
          | r ∷ rs ↦ port_server port (r ∷ rs)
        ])
    × ((key : Bytes)
        → elim app [ none ↦ none | some servers ↦ lookup key servers ] ≢ none
        → (port : ℕ) × (0 < port) × (key ≡ server_key port))
    × ((app ≡ none) ↔ (keep_if wants_tcp routes ≡ []))

Serves-none : (routes : List Route) → group_by_port routes [] ≡ [] → Serves routes none
Serves-none routes e = (
  (λ port h. ground (arith, at_port-group_by_port routes [] port h, e)),
  (λ key there. absurd (there refl)),
  (
    (λ same. elim (keep_if-wants_tcp routes) [
      | inl unwanted ↦ unwanted
      | inr (port, h, wanted) ↦
          absurd
            (wanted (sym (at_port-group_by_port routes [] port h) ∙ ap (λ m. at_port m port) e))
    ]),
    (λ unwanted. refl),
  ),
)

Serves-some :
    (routes : List Route) (m : GoMap ℕ (List Route)) (servers : GoMap Bytes Server)
    → m ≢ []
    → group_by_port routes [] ≡ m
    → IsGrouped m
    → build_servers m [] ≡ some servers
    → ((port : ℕ)
        → lookup (server_key port) servers
          ≡ elim (lookup port m) [ none ↦ none | some rs ↦ port_server port rs ])
    → Serves routes (some servers)
Serves-some routes m servers ne e v built q = (
  (λ port h.
      q port
      ∙ lookup-at_port m port v.filled
      ∙ ap (λ l. elim l [ [] ↦ none | r ∷ rs ↦ port_server port (r ∷ rs) ])
          (sym (ap (λ g. at_port g port) e) ∙ at_port-group_by_port routes [] port h)),
  (λ key there. elim (build_servers-keys m [] servers key v.filled built there) [
    | inl empty ↦ absurd (empty refl)
    | inr found ↦ found
  ]),
  (
    (λ same. absurd (some-ne-none same)),
    (λ unwanted. absurd (ne (sym e ∙ group_by_port-none routes [] unwanted))),
  ),
)

-- `BuildL4App` never indexes an empty slice. A port above 0 has a server exactly when some route asks
-- for it, and the server is made from all the routes that do, in their order; every server is that of such a
-- port; and there is no app exactly when no route asks for a port above 0.
pub build_l4_app_lem :
    (routes : List Route)
    → (app : Option (GoMap Bytes Server)) × (build_l4_app routes ≡ some app) × Serves routes app
unfolding build_l4_app
build_l4_app_lem routes = go (group_by_port routes []) refl
  where
    go :
        (m : GoMap ℕ (List Route))
        → group_by_port routes [] ≡ m
        → (app : Option (GoMap Bytes Server)) × (build_l4_app routes ≡ some app) × Serves routes app
    go [] e = (none, rw (build_l4_app, e) refl, Serves-none routes e)
    go (head ∷ m) e =
        let v : IsGrouped (head ∷ m) =
          subst IsGrouped e
            (group_by_port-IsGrouped routes [] (record { unique = tt; filled = tt })) in
        let (servers, f, q) = build_servers-lookup (head ∷ m) [] v in
        (
          some servers,
          rw (build_l4_app, e, f) refl,
          Serves-some routes (head ∷ m) servers (λ empty. cc) e v f q,
        )
