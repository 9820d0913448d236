-- ===== src/Certs/Ensure.antt =====
-- What `EnsureCert` and `EnsureWildcardCert` promise to `GetCert` and `GetWildcardCert`.
use localproxy.Base.{
  ◌≡◌, refl, sym, subst, ◌∙◌, Bytes, List, none, some, Bool, true, false, ◌&&◌, if◌then◌else◌,
  bytes_beq, bytes_beq_iff, bytes_eq, Bool-cases, Option-cases, inl, inr, arith,
}
use localproxy.Base.GoMap.{lookup, put, lookup-put}
use localproxy.Certs.{
  CertPaths, CertManager, File, key_file, cert_file, partial, Disk, Generation, not_generated,
  key_not_written, cert_not_written, generated, cache_key, paths_of, is_there, dns_names, left_part,
  write_pair, ensure_cert_internal,
}

-- Both files of a key are there.
abbrev pub has_pair : Bytes → Bytes → Disk → Bool
has_pair dir key disk =
    is_there (paths_of dir key).cert_path disk && is_there (paths_of dir key).key_path disk

-- Every key of the manager has its own two paths, and both files are there.
abbrev pub IsFiled : CertManager → Disk → Type 0
IsFiled m disk =
    (key : Bytes) (p : CertPaths)
    → lookup key m.certs ≡ some p
    → (p ≡ paths_of m.certs_dir key) × (has_pair m.certs_dir key disk ≡ true)

is_there-put :
    (path other : Bytes) (f : File) (disk : Disk)
    → is_there path disk ≡ true
    → is_there path (put other f disk) ≡ true
is_there-put path other f disk h = ground (arith, lookup-put other path f disk)

is_there-left_part :
    (path other : Bytes) (left : Bool) (disk : Disk)
    → is_there path disk ≡ true
    → is_there path (left_part left other disk) ≡ true
is_there-left_part path other true disk h = is_there-put path other partial disk h
is_there-left_part path other false disk h = h

-- To generate a certificate takes no file away.
is_there-write_pair :
    (g : Generation) (names : List Bytes) (p : CertPaths) (disk : Disk) (path : Bytes)
    → is_there path disk ≡ true
    → is_there path (write_pair g names p disk).1 ≡ true
is_there-write_pair not_generated names p disk path h = h
is_there-write_pair (key_not_written left) names p disk path h =
    is_there-left_part path p.key_path left disk h
is_there-write_pair (cert_not_written left) names p disk path h =
    is_there-left_part path p.cert_path left (put p.key_path key_file disk)
      (is_there-put path p.key_path key_file disk h)
is_there-write_pair generated names p disk path h =
    is_there-put path p.cert_path (cert_file names) (put p.key_path key_file disk)
      (is_there-put path p.key_path key_file disk h)

-- When it succeeds, both files are there.
write_pair-true :
    (g : Generation) (names : List Bytes) (p : CertPaths) (disk : Disk)
    → (write_pair g names p disk).0 ≡ true
    → (is_there p.cert_path (write_pair g names p disk).1 ≡ true)
      × (is_there p.key_path (write_pair g names p disk).1 ≡ true)
write_pair-true not_generated names p disk e = absurd (ground arith)
write_pair-true (key_not_written left) names p disk e = absurd (ground arith)
write_pair-true (cert_not_written left) names p disk e = absurd (ground arith)
write_pair-true generated names p disk e =
    let written = put p.key_path key_file disk in
    (
      ground (
        arith,
        lookup-put p.cert_path p.cert_path (cert_file names) written,
        bytes_beq_iff p.cert_path p.cert_path,
      ),
      is_there-put p.key_path p.cert_path (cert_file names) written (
          ground (
            arith,
            lookup-put p.key_path p.key_path key_file disk,
            bytes_beq_iff p.key_path p.key_path,
          )),
    )

IsFiled-grow :
    (m : CertManager) (disk disk' : Disk)
    → IsFiled m disk
    → ((path : Bytes) → is_there path disk ≡ true → is_there path disk' ≡ true)
    → IsFiled m disk'
IsFiled-grow m disk disk' v more key p e =
    let own = paths_of m.certs_dir key in
    ((v key p e).0, ground (arith, (v key p e).1, more own.cert_path, more own.key_path))

IsFiled-put :
    (m : CertManager) (disk : Disk) (key : Bytes)
    → IsFiled m disk
    → has_pair m.certs_dir key disk ≡ true
    → IsFiled (record m { certs = put key (paths_of m.certs_dir key) m.certs }) disk
IsFiled-put m disk key v both other p e =
    let own = paths_of m.certs_dir key in
    elim (Bool-cases (bytes_beq key other)) [
      | inl same ↦
          let eq = (bytes_beq_iff key other).0 same in
          let found : some own ≡ some p =
            ground (arith, e, same, lookup-put key other own m.certs) in
          let at_key : (own ≡ paths_of m.certs_dir key) × (has_pair m.certs_dir key disk ≡ true) =
            (refl, both) in
          let moved =
            subst (λ k. (own ≡ paths_of m.certs_dir k) × (has_pair m.certs_dir k disk ≡ true)) eq
              at_key in
          let back : own ≡ p = cc in (sym back ∙ moved.0, moved.1)
      | inr differ ↦ v other p (ground (arith, e, differ, lookup-put key other own m.certs))
    ]

-- What a call for the key leaves.
abbrev Ensured : CertManager → Disk → Bytes → Bool × CertManager × Disk → Type 0
Ensured m disk key (fine, m', disk') =
    IsFiled m' disk'
    × ((other : Bytes)
        → lookup other m'.certs ≡ (
            if bytes_beq key other
            then (if fine then some (paths_of m.certs_dir other) else none)
            else lookup other m.certs))
    × ((path : Bytes) → is_there path disk ≡ true → is_there path disk' ≡ true)
    × (m'.certs_dir ≡ m.certs_dir)

-- The three ways to end: nothing to do, the key is new, and an error.
Ensured-known :
    (m : CertManager) (disk : Disk) (key : Bytes) (p : CertPaths)
    → IsFiled m disk
    → lookup key m.certs ≡ some p
    → Ensured m disk key (true, m, disk)
Ensured-known m disk key p v found = (
  v,
  (λ other. ground (arith, found, (v key p found).0, bytes_beq_iff key other)),
  (λ path h. h),
  refl,
)

Ensured-kept :
    (m : CertManager) (disk disk' : Disk) (key : Bytes)
    → IsFiled m disk
    → ((path : Bytes) → is_there path disk ≡ true → is_there path disk' ≡ true)
    → has_pair m.certs_dir key disk' ≡ true
    → Ensured m disk key
        (true, record m { certs = put key (paths_of m.certs_dir key) m.certs }, disk')
Ensured-kept m disk disk' key v more both = (
  IsFiled-put m disk' key (IsFiled-grow m disk disk' v more) both,
  (λ other.
      ground
        (arith, lookup-put key other (paths_of m.certs_dir key) m.certs, bytes_beq_iff key other)),
  more,
  refl,
)

Ensured-failed :
    (m : CertManager) (disk disk' : Disk) (key : Bytes)
    → IsFiled m disk
    → lookup key m.certs ≡ none
    → ((path : Bytes) → is_there path disk ≡ true → is_there path disk' ≡ true)
    → Ensured m disk key (false, m, disk')
Ensured-failed m disk disk' key v fresh more = (
  IsFiled-grow m disk disk' v more,
  (λ other. ground (arith, fresh, bytes_beq_iff key other)),
  more,
  refl,
)

-- From a valid manager, and however the generation ends, a valid manager is left. It then has the two
-- paths of the key exactly when no error is returned, and for every other key what it had; no file is
-- taken away.
pub ensure_cert_internal_lem :
    (g : Generation) (subdomain : Bytes) (wildcard : Bool) (m : CertManager) (disk : Disk)
    → IsFiled m disk
    → let (fine, m', disk') = ensure_cert_internal g subdomain wildcard m disk in
      IsFiled m' disk'
      × ((other : Bytes)
          → lookup other m'.certs ≡ (
              if bytes_beq (cache_key subdomain wildcard) other
              then (if fine then some (paths_of m.certs_dir other) else none)
              else lookup other m.certs))
      × ((path : Bytes) → is_there path disk ≡ true → is_there path disk' ≡ true)
      × (m'.certs_dir ≡ m.certs_dir)
unfolding ensure_cert_internal
ensure_cert_internal_lem g subdomain wildcard m disk v =
    let key = cache_key subdomain wildcard in
    let p = paths_of m.certs_dir key in
    let names = dns_names subdomain wildcard in
    let made = write_pair g names p disk in
    let more = is_there-write_pair g names p disk in
    elim (Option-cases (lookup key m.certs)) [
      | inr (own, found) ↦ rw (ensure_cert_internal, found) (Ensured-known m disk key own v found)
      | inl fresh ↦ elim (Bool-cases (has_pair m.certs_dir key disk)) [
        | inl both ↦
            rw (ensure_cert_internal, fresh, both)
              (Ensured-kept m disk disk key v (λ path h. h) both)
        | inr missing ↦ elim (Bool-cases made.0) [
          | inl written ↦
              let pair = write_pair-true g names p disk written in
              rw (ensure_cert_internal, fresh, missing, written)
                (Ensured-kept m disk made.1 key v more (ground (arith, pair)))
          | inr error ↦
              rw (ensure_cert_internal, fresh, missing, error)
                (Ensured-failed m disk made.1 key v fresh more)
        ]
      ]
    ]
