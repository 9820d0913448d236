-- ===== src/Proxy/Http/Certs.antt =====
-- Which certificate and which TLS policy `BuildCaddyConfig` makes for a tag.
use localproxy.Base.{
  ◌≡◌, refl, sym, ap, ◌∙◌, Bytes, List, [], ◌∷◌, ◌++◌, append_assoc, append-nil, map, Option, none,
  some, Bool, false, ◌&&◌, bytes_beq, bytes_beq_iff, bytes_eq, keep_if, Option-cases, List-cases,
  Bool-cases, inl, inr, arith,
}
use localproxy.Base.GoMap.{GoMap, lookup, put, lookup-put, HasUniqueKeys, HasUniqueKeys-put}
use localproxy.Proxy.Route.{Route}
use localproxy.Proxy.Http.{
  CertInfo, KeyPair, Policy, by_sni, default, host_names, info_tag, has_cert, joined, cert_infos,
  key_pair, policy, build_caddy_config,
}

-- The routes with a certificate under this tag.
abbrev pub is_under : Bytes → Route → Bool
is_under tag r = has_cert r && bytes_beq (info_tag r) tag

abbrev join_all : Option CertInfo → List Route → Option CertInfo
join_all info [] = info
join_all info (r ∷ routes) = join_all (some (joined info r)) routes

lookup-cert_infos :
    (routes : List Route) (infos : GoMap Bytes CertInfo) (tag : Bytes)
    → lookup tag (cert_infos routes infos)
      ≡ join_all (lookup tag infos) (keep_if (is_under tag) routes)
unfolding cert_infos
lookup-cert_infos [] infos tag = refl
lookup-cert_infos (r ∷ routes) infos tag =
    let next = put (info_tag r) (joined (lookup (info_tag r) infos) r) infos in
    elim (Bool-cases (has_cert r)) [
      | inr no_cert ↦ ground (arith, lookup-cert_infos routes infos tag)
      | inl cert ↦ ground (
        arith,
        lookup-cert_infos routes next tag,
        bytes_beq_iff (info_tag r) tag,
        lookup-put (info_tag r) tag (joined (lookup (info_tag r) infos) r) infos,
      )
    ]

-- All the names of the routes, in order.
abbrev pub all_names : List Route → List Bytes
all_names [] = []
all_names (r ∷ routes) = host_names r ++ all_names routes

join_all-some :
    (info : CertInfo) (routes : List Route)
    → join_all (some info) routes
      ≡ some (record info { sni_names = info.sni_names ++ all_names routes })
join_all-some info [] =
    ap (λ l. some (record info { sni_names = l })) (sym (append-nil info.sni_names))
join_all-some info (r ∷ routes) =
    join_all-some (joined (some info) r) routes
    ∙ ap (λ l. some (record info { sni_names = l }))
        (append_assoc info.sni_names (host_names r) (all_names routes))

-- An entry stands under its own tag, and each tag has one.
abbrev AreTagged : GoMap Bytes CertInfo → Type 0
AreTagged [] = Unit {0}
AreTagged (e ∷ infos) = (e.1.tag ≡ e.0) × AreTagged infos

AreTagged-put :
    (tag : Bytes) (info : CertInfo) (infos : GoMap Bytes CertInfo)
    → info.tag ≡ tag
    → AreTagged infos
    → AreTagged (put tag info infos)
AreTagged-put tag info [] e v = (e, tt)
AreTagged-put tag info (f ∷ infos) e v = ground (arith, AreTagged-put tag info infos)

lookup-AreTagged :
    (tag : Bytes) (infos : GoMap Bytes CertInfo) (info : CertInfo)
    → AreTagged infos
    → lookup tag infos ≡ some info
    → info.tag ≡ tag
lookup-AreTagged tag [] info v e = absurd (ground arith)
lookup-AreTagged tag (f ∷ infos) info v e =
    ground (arith, lookup-AreTagged tag infos info v.1, bytes_beq_iff f.0 tag)

joined-tag :
    (r : Route) (infos : GoMap Bytes CertInfo)
    → AreTagged infos
    → (joined (lookup (info_tag r) infos) r).tag ≡ info_tag r
joined-tag r infos v = elim (Option-cases (lookup (info_tag r) infos)) [
  | inl fresh ↦ rw fresh refl
  | inr (info, found) ↦ rw found (lookup-AreTagged (info_tag r) infos info v found)
]

cert_infos-valid :
    (routes : List Route) (infos : GoMap Bytes CertInfo)
    → AreTagged infos × HasUniqueKeys infos
    → AreTagged (cert_infos routes infos) × HasUniqueKeys (cert_infos routes infos)
unfolding cert_infos
cert_infos-valid [] infos v = v
cert_infos-valid (r ∷ routes) infos v =
    let info = joined (lookup (info_tag r) infos) r in
    let next = put (info_tag r) info infos in
    elim (Bool-cases (has_cert r)) [
      | inr no_cert ↦ rw no_cert (cert_infos-valid routes infos v)
      | inl cert ↦ rw cert (
          cert_infos-valid routes next (
            AreTagged-put (info_tag r) info infos (joined-tag r infos v.0) v.0,
            HasUniqueKeys-put (info_tag r) info infos v.1,
          ))
    ]

abbrev pub has_tag : Bytes → KeyPair → Bool
has_tag tag p = bytes_beq p.tag tag

abbrev pub selects_tag : Bytes → Policy → Bool
selects_tag tag (by_sni names own) = bytes_beq own tag
selects_tag tag default = false

keep_if-missing :
    (tag : Bytes) (infos : GoMap Bytes CertInfo)
    → AreTagged infos
    → lookup tag infos ≡ none
    → (keep_if (has_tag tag) (map key_pair infos) ≡ [])
      × (keep_if (selects_tag tag) (map policy infos ++ (default ∷ [])) ≡ [])
keep_if-missing tag [] v e = (refl, refl)
keep_if-missing tag (f ∷ infos) v e =
    ground (arith, keep_if-missing tag infos v.1, bytes_beq_iff f.0 tag)

-- What stands for the tag in the lists that are made from the map.
keep_if-infos :
    (tag : Bytes) (infos : GoMap Bytes CertInfo)
    → AreTagged infos
    → HasUniqueKeys infos
    → (keep_if (has_tag tag) (map key_pair infos)
        ≡ elim (lookup tag infos) [ none ↦ [] | some info ↦ key_pair (tag, info) ∷ [] ])
      × (keep_if (selects_tag tag) (map policy infos ++ (default ∷ []))
          ≡ elim (lookup tag infos) [ none ↦ [] | some info ↦ policy (tag, info) ∷ [] ])
keep_if-infos tag [] v u = (refl, refl)
keep_if-infos tag (f ∷ infos) v u =
    ground
      (arith, keep_if-infos tag infos v.1, bytes_beq_iff f.0 tag, keep_if-missing tag infos v.1)

-- What the routes under a tag make.
abbrev pub pairs_for : Bytes → List Route → List KeyPair
pairs_for tag [] = []
pairs_for tag (r ∷ routes) = record { certificate = r.cert_path; key = r.key_path; tag = tag } ∷ []

abbrev pub policies_for : Bytes → List Route → List Policy
policies_for tag [] = []
policies_for tag (r ∷ routes) = by_sni (all_names (r ∷ routes)) tag ∷ []

keep_if-is_under :
    (tag : Bytes) (routes : List Route) (r : Route) (rest : List Route)
    → keep_if (is_under tag) routes ≡ r ∷ rest
    → info_tag r ≡ tag
keep_if-is_under tag [] r rest e = absurd (ground arith)
keep_if-is_under tag (q ∷ routes) r rest e =
    ground (arith, keep_if-is_under tag routes r rest, bytes_beq_iff (info_tag q) tag)

-- For every tag there is at most one certificate, and one policy that selects it: the certificate is
-- that of the first route under the tag with both paths set, and the policy matches the names of all
-- such routes, in their order. Without such a route there is neither.
pub build_caddy_config-certs :
    (routes : List Route) (https_redirects : Bool) (tag : Bytes)
    → let config = build_caddy_config routes https_redirects in
      let under = keep_if (is_under tag) routes in
      (keep_if (has_tag tag) config.load_files ≡ pairs_for tag under)
      × (keep_if (selects_tag tag) config.https.policies ≡ policies_for tag under)
unfolding build_caddy_config
build_caddy_config-certs routes https_redirects tag =
    let infos = cert_infos routes [] in
    let valid = cert_infos-valid routes [] (tt, tt) in
    let kept = keep_if-infos tag infos valid.0 valid.1 in
    let looked = lookup-cert_infos routes [] tag in
    elim (List-cases (keep_if (is_under tag) routes)) [
      | inl e ↦
          let missing : lookup tag infos ≡ none = looked ∙ ap (join_all none) e in
          rw (e, kept.0, kept.1, missing) (refl, refl)
      | inr (r, rest, e) ↦
          let own = keep_if-is_under tag routes r rest e in
          let found = looked ∙ ap (join_all none) e ∙ join_all-some (joined none r) rest in
          rw (e, kept.0, kept.1, found, own) (refl, refl)
    ]
