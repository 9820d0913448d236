-- ===== src/Proxy/Http/Tests.antt =====
-- The HTTP configuration of three routes, and the theorem at a concrete input.
use localproxy.Base.{ℕ, ◌≡◌, refl, Bytes, codes, List, [], ◌∷◌, true, bytes_eq, keep_if, none}
use localproxy.Net.{loopback}
use localproxy.Proxy.Route.{Route, plain_route}
use localproxy.Proxy.Http.{by_sni, https_redirect, build_caddy_config}
use localproxy.Proxy.Http.Certs.{has_tag, selects_tag, build_caddy_config-certs}

abbrev at : Bytes → ℕ → Bytes → Route
at name port cert = record (plain_route name (record { ip = loopback; port = port })) {
  cert_path = cert;
  key_path = codes "key.pem";
}

-- The dashboard, a service, and a second service of the same name.
abbrev routes : List Route
routes =
    at [] 8080 (codes "root.pem")
    ∷ at (codes "shop") 3000 (codes "shop.pem")
    ∷ at (codes "shop") 4000 (codes "other.pem")
    ∷ []

redirects :
    (build_caddy_config routes true).http.routes
    ≡ record { hosts = none; handler = https_redirect } ∷ []
unfolding build_caddy_config
redirects = refl

build_caddy_config-certs_example :
    let config = build_caddy_config routes true in
    (keep_if (has_tag (codes "shop")) config.load_files
      ≡ record { certificate = codes "shop.pem"; key = codes "key.pem"; tag = codes "shop" } ∷ [])
    × (keep_if (selects_tag (codes "shop")) config.https.policies
        ≡ by_sni
            (codes "shop.localhost"
              ∷ codes "shop.internal"
              ∷ codes "shop.localhost"
              ∷ codes "shop.internal"
              ∷ [])
            (codes "shop")
          ∷ [])
build_caddy_config-certs_example = build_caddy_config-certs routes true (codes "shop")
