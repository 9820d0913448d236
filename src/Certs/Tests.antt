-- ===== src/Certs/Tests.antt =====
-- Certificates on small inputs, and the theorem at a concrete input.
use localproxy.Base.{
  ◌≡◌, refl, Bytes, codes, [], none, some, true, false, bytes_beq, bytes_eq, if◌then◌else◌,
}
use localproxy.Base.GoMap.{lookup}
use localproxy.Certs.{
  CertManager, partial, cert_not_written, generated, paths_of, is_there, ensure_cert_internal,
  ensure_cert, ensure_wildcard_cert, get_cert, get_wildcard_cert,
}
use localproxy.Certs.Ensure.{IsFiled, ensure_cert_internal_lem}

abbrev manager : CertManager
manager = record { certs_dir = codes "/var/certs"; certs = [] }

-- A wildcard certificate is found under its own key only.
wildcards :
    let (fine, m, disk) = ensure_wildcard_cert generated (codes "shop") manager [] in
    (get_wildcard_cert (codes "shop") m
      ≡ some (paths_of (codes "/var/certs") (codes "wildcard_shop")))
    × (get_cert (codes "shop") m ≡ none)
unfolding ensure_cert_internal
wildcards = (refl, refl)

-- A certificate of which a part was written is taken as it is the next time.
takes_partial :
    let (failed, m, disk) = ensure_cert (cert_not_written true) (codes "shop") manager [] in
    let (fine, m', disk') = ensure_cert generated (codes "shop") m disk in
    (failed ≡ false)
    × (fine ≡ true)
    × (lookup (paths_of (codes "/var/certs") (codes "shop")).cert_path disk' ≡ some partial)
unfolding ensure_cert_internal
takes_partial = (refl, refl, refl)

manager-IsFiled : IsFiled manager []
manager-IsFiled key p e = cc

ensure_cert_internal_lem_example :
    let (fine, m', disk') = ensure_cert_internal generated (codes "shop") false manager [] in
    IsFiled m' disk'
    × ((other : Bytes)
        → lookup other m'.certs ≡ (
            if bytes_beq (codes "shop") other
            then (if fine then some (paths_of (codes "/var/certs") other) else none)
            else none))
    × ((path : Bytes) → is_there path [] ≡ true → is_there path disk' ≡ true)
    × (m'.certs_dir ≡ codes "/var/certs")
ensure_cert_internal_lem_example =
    ensure_cert_internal_lem generated (codes "shop") false manager [] manager-IsFiled
