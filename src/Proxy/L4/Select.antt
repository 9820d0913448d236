-- ===== src/Proxy/L4/Select.antt =====
-- Which of a port's routes takes a connection.
use localproxy.Base.{
  ◌≡◌, refl, ap, bytes_beq, codes, Bytes, List, [], ◌∷◌, ◌++◌, map, Option, none, some, Bool, true,
  false, ◌||◌, if◌then◌else◌, arith,
}
use localproxy.Proxy.Route.{Route}
use localproxy.Proxy.L4.{
  Handler, tls, proxy, Matcher, all, any_tls, sni, L4Route, sni_names, tls_route, fallback_route,
  plaintext_route, port_routes,
}

-- The first bytes of a connection: no TLS, or a TLS hello for a server name.
pub data Hello : Type 0 where
  plaintext : Hello
  tls_for : Bytes → Hello

abbrev pub any_name : (Bytes → Bool) → List Bytes → Bool
any_name p [] = false
any_name p (n ∷ names) = p n || any_name p names

-- What is relied on of caddy-l4: the first route whose matcher accepts a connection takes it; a route with no
-- matcher accepts every connection, the TLS matcher only TLS, and with names only TLS for a name that one of
-- them matches. How a name matches, as to case and wildcards, is left open.
pub record LayerFour : Type 0 where
  pub name_matches : Bytes → Bytes → Bool
  pub accepts : Hello → Matcher → Bool
  pub chosen : List L4Route → Hello → Option L4Route
  pub accepts-all : (hello : Hello) → accepts hello all ≡ true
  pub accepts-any_tls : (name : Bytes) → accepts (tls_for name) any_tls ≡ true
  pub refuses-any_tls : accepts plaintext any_tls ≡ false
  pub accepts-sni :
      (names : List Bytes) (name : Bytes)
      → accepts (tls_for name) (sni names) ≡ any_name (λ pattern. name_matches pattern name) names
  pub refuses-sni : (names : List Bytes) → accepts plaintext (sni names) ≡ false
  pub chosen-cons :
      (r : L4Route) (rs : List L4Route) (hello : Hello)
      → chosen (r ∷ rs) hello ≡ (if accepts hello r.matcher then some r else chosen rs hello)

module _ (app : LayerFour) where
  open app use {
    name_matches, accepts, chosen, accepts-all, accepts-any_tls, refuses-any_tls, accepts-sni,
    refuses-sni, chosen-cons,
  }

  -- The handlers of the route that is chosen.
  abbrev pub handlers_of : Option L4Route → Option (List Handler)
  handlers_of none = none
  handlers_of (some r) = some r.handlers

  -- TLS with the certificate of the route, and then its endpoint.
  abbrev pub through_tls : Route → List Handler
  through_tls r =
      tls (if bytes_beq r.subdomain [] then codes "localhost" else r.subdomain)
        (codes "postgresql" ∷ [])
      ∷ proxy r.endpoint
      ∷ []

  -- The first route whose name, alone or under either domain, matches the server name.
  unfoldable pub first_named : Bytes → List Route → Option Route
  first_named name [] = none
  first_named name (r ∷ rs) =
      if any_name (λ pattern. name_matches pattern name)
        ((r.subdomain ++ codes ".localhost")
          ∷ (r.subdomain ++ codes ".internal")
          ∷ r.subdomain
          ∷ [])
      then some r
      else first_named name rs

  chosen-tls :
      (first : Route) (name : Bytes) (rs : List Route)
      → chosen
          (map tls_route rs ++ (fallback_route first ∷ plaintext_route first ∷ []))
          (tls_for name)
        ≡ elim (first_named name rs) [
          | some r ↦ some (tls_route r)
          | none ↦ some (fallback_route first)
        ]
  unfolding first_named
  chosen-tls first name [] = ground (
    arith,
    chosen-cons (fallback_route first) (plaintext_route first ∷ []) (tls_for name),
    accepts-any_tls name,
  )
  chosen-tls first name (r ∷ rs) = ground (
    arith,
    chosen-cons (tls_route r)
        (map tls_route rs ++ (fallback_route first ∷ plaintext_route first ∷ [])) (tls_for name),
    accepts-sni (sni_names r) name,
    chosen-tls first name rs,
  )

  chosen-plaintext :
      (first : Route) (rs : List Route)
      → chosen (map tls_route rs ++ (fallback_route first ∷ plaintext_route first ∷ [])) plaintext
        ≡ some (plaintext_route first)
  chosen-plaintext first [] = ground (
    arith,
    chosen-cons (fallback_route first) (plaintext_route first ∷ []) plaintext,
    refuses-any_tls,
    chosen-cons (plaintext_route first) [] plaintext,
    accepts-all plaintext,
  )
  chosen-plaintext first (r ∷ rs) = ground (
    arith,
    chosen-cons (tls_route r)
        (map tls_route rs ++ (fallback_route first ∷ plaintext_route first ∷ [])) plaintext,
    refuses-sni (sni_names r),
    chosen-plaintext first rs,
  )

  -- Every connection to a port with routes is handled: a TLS connection whose server name matches a name of
  -- some route, by caddy-l4's own rule for names, with the certificate and the endpoint of the first such
  -- route; any other TLS connection with those of the port's first route; and one without TLS by the endpoint
  -- of the port's first route.
  pub port_routes-chosen :
      (first : Route) (rs : List Route) (name : Bytes)
      → (l : List L4Route) × (port_routes (first ∷ rs) ≡ some l)
        × (handlers_of (chosen l (tls_for name)) ≡ elim (first_named name (first ∷ rs)) [
          | some r ↦ some (through_tls r)
          | none ↦ some (through_tls first)
        ])
        × (handlers_of (chosen l plaintext) ≡ some (proxy first.endpoint ∷ []))
  unfolding port_routes
  port_routes-chosen first rs name = (
    map tls_route (first ∷ rs) ++ (fallback_route first ∷ plaintext_route first ∷ []),
    refl,
    ground (arith, chosen-tls first name (first ∷ rs)),
    ap handlers_of (chosen-plaintext first (first ∷ rs)),
  )
