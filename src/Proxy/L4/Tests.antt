-- ===== src/Proxy/L4/Tests.antt =====
-- Runs of the layer-4 configuration on two routes, and the theorems at concrete inputs.
use localproxy.Base.{
  ℕ, ◌≡◌, refl, pos, Bytes, codes, List, [], ◌∷◌, Option, none, some, bytes_beq, bytes_eq, Bool,
  true, false, if◌then◌else◌,
}
use localproxy.Base.GoMap.{GoMap}
use localproxy.Net.{AddrPort, loopback}
use localproxy.Proxy.Route.{Route, plain_route}
use localproxy.Proxy.L4.{
  Server, Matcher, all, any_tls, sni, L4Route, proxy, add_by_port, group_by_port, port_routes,
  build_l4_app,
}
use localproxy.Proxy.L4.Servers.{Serves, build_l4_app_lem}
use localproxy.Proxy.L4.Select.{
  Hello, plaintext, tls_for, any_name, LayerFour, first_named, handlers_of, through_tls,
  port_routes-chosen,
}

abbrev endpoint : ℕ → AddrPort
endpoint port = record { ip = loopback; port = port }

abbrev db : Route
db = record (plain_route (codes "db") (endpoint 5432)) { tcp_port = pos 5432 }

abbrev other : Route
other = record (plain_route (codes "other") (endpoint 5433)) { tcp_port = pos 5432 }

abbrev web : Route
web = plain_route (codes "web") (endpoint 3000)

-- No TCP port, no layer-4 app.
no_app : build_l4_app (web ∷ []) ≡ some none
unfolding build_l4_app group_by_port add_by_port
no_app = refl

build_l4_app_lem_example :
    (app : Option (GoMap Bytes Server)) × (build_l4_app (db ∷ web ∷ other ∷ []) ≡ some app)
    × Serves (db ∷ web ∷ other ∷ []) app
build_l4_app_lem_example = build_l4_app_lem (db ∷ web ∷ other ∷ [])

-- Caddy's layer-4 app on exact names in lower case.
abbrev exact : Bytes → Bytes → Bool
exact pattern name = bytes_beq pattern name

abbrev first_match : (Hello → Matcher → Bool) → List L4Route → Hello → Option L4Route
first_match accepts [] hello = none
first_match accepts (r ∷ rs) hello =
    if accepts hello r.matcher then some r else first_match accepts rs hello

abbrev accepts_exact : Hello → Matcher → Bool
accepts_exact hello all = true
accepts_exact plaintext any_tls = false
accepts_exact (tls_for name) any_tls = true
accepts_exact plaintext (sni names) = false
accepts_exact (tls_for name) (sni names) = any_name (λ pattern. exact pattern name) names

first_match-cons :
    (r : L4Route) (rs : List L4Route) (hello : Hello)
    → first_match accepts_exact (r ∷ rs) hello
      ≡ (if accepts_exact hello r.matcher then some r else first_match accepts_exact rs hello)
first_match-cons r rs hello = refl

abbrev exact_app : LayerFour
exact_app = record {
  name_matches = exact;
  accepts = accepts_exact;
  chosen = first_match accepts_exact;
  accepts-all = λ hello. refl;
  accepts-any_tls = λ name. refl;
  refuses-any_tls = refl;
  accepts-sni = λ names name. refl;
  refuses-sni = λ names. refl;
  chosen-cons = first_match-cons;
}

port_routes-chosen_example :
    (l : List L4Route) × (port_routes (db ∷ other ∷ []) ≡ some l)
    × (handlers_of exact_app (exact_app.chosen l (tls_for (codes "other.internal")))
        ≡ some (through_tls exact_app other))
    × (handlers_of exact_app (exact_app.chosen l plaintext) ≡ some (proxy db.endpoint ∷ []))
unfolding first_named
port_routes-chosen_example = port_routes-chosen exact_app db (other ∷ []) (codes "other.internal")
