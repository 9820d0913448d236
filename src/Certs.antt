-- ===== src/Certs.antt =====
-- internal/certs/mkcert.go: the certificates that the manager has, and how it makes one. A file is
-- what the code needs of it; `filepath.Join` puts one `/` between the directory, which is clean, and a
-- name, which has none. Whether generating and writing succeed is the argument `Generation`.
pub mod Ensure
mod Tests
use localproxy.Base.{
  ℕ, Bytes, codes, List, [], ◌∷◌, ◌++◌, Option, none, some, Bool, true, false, ◌&&◌, if◌then◌else◌,
  bytes_beq, bytes_eq, is_some,
}
use localproxy.Base.GoMap.{GoMap, lookup, put}

pub record CertPaths : Type 0 where
  pub cert_path : Bytes
  pub key_path : Bytes

pub record CertManager : Type 0 where
  pub certs_dir : Bytes
  pub certs : GoMap Bytes CertPaths

-- A key, a certificate for some names, or what a failed write left.
pub data File : Type 0 where
  key_file : File
  cert_file : List Bytes → File
  partial : File

abbrev pub Disk : Type 0
Disk = GoMap Bytes File

-- How the generation of a certificate ends: with an error before a file is written, with a key or a
-- certificate that could not be written and may have left a part, or with both files.
pub data Generation : Type 0 where
  not_generated : Generation
  key_not_written : Bool → Generation
  cert_not_written : Bool → Generation
  generated : Generation

abbrev pub cache_key : Bytes → Bool → Bytes
cache_key subdomain wildcard = if wildcard then codes "wildcard_" ++ subdomain else subdomain

abbrev pub paths_of : Bytes → Bytes → CertPaths
paths_of dir key = record {
  cert_path = dir ++ (codes "/" ++ (key ++ codes ".pem"));
  key_path = dir ++ (codes "/" ++ (key ++ codes "-key.pem"));
}

-- `os.Stat` finds the file.
abbrev pub is_there : Bytes → Disk → Bool
is_there path disk = is_some (lookup path disk)

abbrev pub dns_names : Bytes → Bool → List Bytes
dns_names subdomain wildcard =
    if bytes_beq subdomain (codes "localhost")
    then codes "localhost" ∷ codes "proxy.localhost" ∷ codes "proxy.internal" ∷ []
    else if wildcard
    then (codes "*." ++ (subdomain ++ codes ".localhost"))
      ∷ (codes "*." ++ (subdomain ++ codes ".internal"))
      ∷ (subdomain ++ codes ".localhost")
      ∷ (subdomain ++ codes ".internal")
      ∷ []
    else (subdomain ++ codes ".localhost") ∷ (subdomain ++ codes ".internal") ∷ []

abbrev pub left_part : Bool → Bytes → Disk → Disk
left_part left path disk = if left then put path partial disk else disk

-- The files after the generation, and whether both were written.
abbrev pub write_pair : Generation → List Bytes → CertPaths → Disk → Bool × Disk
write_pair not_generated names p disk = (false, disk)
write_pair (key_not_written left) names p disk = (false, left_part left p.key_path disk)
write_pair (cert_not_written left) names p disk =
    (false, left_part left p.cert_path (put p.key_path key_file disk))
write_pair generated names p disk =
    (true, put p.cert_path (cert_file names) (put p.key_path key_file disk))

-- `ensureCertInternal`: whether it returns no error, the manager and the files.
unfoldable pub ensure_cert_internal :
    Generation → Bytes → Bool → CertManager → Disk → Bool × CertManager × Disk
ensure_cert_internal generation subdomain wildcard m disk =
    let key = cache_key subdomain wildcard in
    let p = paths_of m.certs_dir key in
    let kept = record m { certs = put key p m.certs } in
    if is_some (lookup key m.certs)
    then (true, m, disk)
    else if is_there p.cert_path disk && is_there p.key_path disk
    then (true, kept, disk)
    else let (written, disk') = write_pair generation (dns_names subdomain wildcard) p disk in
      (written, if written then kept else m, disk')

abbrev pub ensure_cert : Generation → Bytes → CertManager → Disk → Bool × CertManager × Disk
ensure_cert generation subdomain m disk = ensure_cert_internal generation subdomain false m disk

abbrev pub ensure_wildcard_cert :
    Generation → Bytes → CertManager → Disk → Bool × CertManager × Disk
ensure_wildcard_cert generation subdomain m disk =
    ensure_cert_internal generation subdomain true m disk

abbrev pub get_cert : Bytes → CertManager → Option CertPaths
get_cert subdomain m = lookup subdomain m.certs

abbrev pub get_wildcard_cert : Bytes → CertManager → Option CertPaths
get_wildcard_cert subdomain m = lookup (codes "wildcard_" ++ subdomain) m.certs
