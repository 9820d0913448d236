-- ===== src/Registry/Store/Ports/Allocation.antt =====
-- `AllocatePort`: which port it picks, when it fails, and what it writes.
use localproxy.Base.{
  ℕ, zero, suc, ◌+◌, ◌-◌, ◌≤◌, ◌<◌, ◌≡◌, ◌≢◌, ◌∙◌, refl, sym, ap, Bytes, codes, List, [], ◌∷◌,
  Option, none, some, Bool, true, false, ◌||◌, pos, dec_lt, is_some, length, length-itoa, itoa,
  scan_d, itoa-injective, scan_d-itoa, nat_beq, nat_beq_iff, nat_eq, bytes_beq_iff, bytes_eq,
  Bool-cases, Option-cases, ℕ_discrete, inl, inr, arith,
}
use localproxy.Base.GoMap.{GoMap, lookup, put, lookup-put, HasUniqueKeys}
use localproxy.Registry.Bolt.{Bolt}
use localproxy.Registry.Store.{Db, Error, ok, err, transact-ok, transact-err}
use localproxy.Registry.Store.Ports.{
  min_port, max_port, used_ports, is_used, find_free, take_port, allocate_port, release_port,
}

-- Whether some key of the list reads as the port.
abbrev some_key : ℕ → List (Bytes × Bytes) → Bool
some_key p [] = false
some_key p ((k, v) ∷ m) = nat_beq (scan_d k) p || some_key p m

is_used-used_ports :
    (m : List (Bytes × Bytes)) (used : GoMap ℕ Bool) (p : ℕ)
    → is_used (used_ports m used) p ≡ (some_key p m || is_used used p)
unfolding used_ports
is_used-used_ports [] used p = refl
is_used-used_ports ((k, v) ∷ m) used p =
    ground
      (arith, is_used-used_ports m (put (scan_d k) true used) p, lookup-put (scan_d k) p true used)

-- Every key is the decimal of a number.
abbrev HasDecimalKeys : List (Bytes × Bytes) → Type 0
HasDecimalKeys m = (k v : Bytes) → lookup k m ≡ some v → itoa (scan_d k) ≡ k

HasDecimalKeys-tail :
    (k v : Bytes) (m : List (Bytes × Bytes))
    → lookup k m ≡ none
    → HasDecimalKeys ((k, v) ∷ m)
    → HasDecimalKeys m
HasDecimalKeys-tail k v m u d j w e = ground (arith, d j w, bytes_beq_iff k j)

-- Among decimal keys, one reads as the port exactly when the port's own decimal is there.
some_key-lookup :
    (p : ℕ) (m : List (Bytes × Bytes))
    → HasUniqueKeys m
    → HasDecimalKeys m
    → some_key p m ≡ is_some (lookup (itoa p) m)
some_key-lookup p [] u d = refl
some_key-lookup p ((k, v) ∷ m) u d = ground (
  arith,
  some_key-lookup p m u.1 (HasDecimalKeys-tail k v m u.0 d),
  d k v (ground (arith, bytes_beq_iff k k)),
  scan_d-itoa p,
  bytes_beq_iff k (itoa p),
)

find_free-none :
    (n lo : ℕ) (used : GoMap ℕ Bool)
    → find_free n lo used ≡ none
    → (q : ℕ) → lo ≤ q
    → q < lo + n
    → is_used used q ≡ true
unfolding find_free
find_free-none zero lo used e q a b = absurd (omega arith)
find_free-none (suc n) lo used e q a b = elim (ℕ_discrete q lo) [
  | yes first ↦ ground arith
  | no later ↦ find_free-none n (lo + 1) used (ground arith) q (omega arith) (omega arith)
]

-- The loop finds the first port from `lo` on that is not used.
find_free-some :
    (n lo : ℕ) (used : GoMap ℕ Bool) (p : ℕ)
    → find_free n lo used ≡ some p
    → (lo ≤ p)
      × (p < lo + n)
      × (is_used used p ≡ false)
      × ((q : ℕ) → lo ≤ q → q < p → is_used used q ≡ true)
unfolding find_free
find_free-some zero lo used p e = cc
find_free-some (suc n) lo used p e = elim (Bool-cases (is_used used lo)) [
  | inr free ↦
      let first : p ≡ lo = ground arith in
      (omega arith, omega arith, rw (first, free), λ q a b. absurd (omega arith))
  | inl taken ↦
      let (low, high, free, below) = find_free-some n (lo + 1) used p (ground arith) in
      (
        omega arith,
        omega arith,
        free,
        (λ q a b. elim (ℕ_discrete q lo) [
          | yes first ↦ rw (first, taken)
          | no later ↦ below q (omega arith) b
        ]),
      )
]

module _ (bolt : Bolt) where
  open bolt use {
    Bucket, get, put as bucket_put, entries, get-put, delete, get-delete, lookup-entries,
    entries_unique, put_accepts,
  }

  -- Every key of the bucket of ports is the decimal of a number, as `AllocatePort` writes them.
  abbrev pub IsPortBucket : Bucket → Type 0
  IsPortBucket b = (k v : Bytes) → get b k ≡ some v → itoa (scan_d k) ≡ k

  -- Whether a port is recorded as in use.
  abbrev pub is_taken : Bucket → ℕ → Bool
  is_taken b p = is_some (get b (itoa p))

  is_used-is_taken :
      (b : Bucket) (p : ℕ) → IsPortBucket b → is_used (used_ports (entries b) []) p ≡ is_taken b p
  is_used-is_taken b p d =
      is_used-used_ports (entries b) [] p
      ∙ ground (
        arith,
        some_key-lookup p (entries b) (entries_unique b)
            (λ k v e. d k v (sym (lookup-entries b k) ∙ e)),
        lookup-entries b (itoa p),
      )

  -- What a successful `take_port` has done to the file.
  pub record Taken (lo hi : ℕ) (db : Db Bucket) (p : ℕ) (db' : Db Bucket) : Type 0 where
    pub low : lo ≤ p
    pub high : p ≤ hi
    pub free : is_taken db.ports p ≡ false
    pub least : (q : ℕ) → lo ≤ q → q < p → is_taken db.ports q ≡ true
    pub recorded : (q : ℕ) → is_taken db'.ports q ≡ (nat_beq p q || is_taken db.ports q)
    pub projects_kept : db'.projects ≡ db.projects
    pub mappings_kept : db'.subdomain_mappings ≡ db.subdomain_mappings
    pub still_decimal : IsPortBucket db'.ports

  recorded-put :
      (b c : Bucket) (p q : ℕ)
      → bucket_put b (itoa p) (codes "1") ≡ some c
      → is_taken c q ≡ (nat_beq p q || is_taken b q)
  recorded-put b c p q e = ground (
    arith,
    get-put b (itoa p) (codes "1") c (itoa q) e,
    bytes_beq_iff (itoa p) (itoa q),
    itoa-injective p q,
    nat_beq_iff p q,
  )

  IsPortBucket-put :
      (b c : Bucket) (p : ℕ)
      → IsPortBucket b
      → bucket_put b (itoa p) (codes "1") ≡ some c
      → IsPortBucket c
  IsPortBucket-put b c p d e k v f =
      ground (
        arith,
        get-put b (itoa p) (codes "1") c k e,
        bytes_beq_iff (itoa p) k,
        scan_d-itoa p,
        d k v,
      )

  module _ (lo hi : ℕ) (db : Db Bucket) where
    abbrev choice : Option ℕ
    choice = find_free (hi + 1 - lo) lo (used_ports (entries db.ports) [])

    take_port-inversion :
        (p : ℕ) (db' : Db Bucket)
        → take_port bolt lo hi db ≡ ok (p, db')
        → (c : Bucket) × (choice ≡ some p)
          × (bucket_put db.ports (itoa p) (codes "1") ≡ some c)
          × (db' ≡ record db { ports = c })
    unfolding take_port
    take_port-inversion p db' e = elim (Option-cases choice) [
      | inl full ↦ ground arith
      | inr (q, f) ↦ elim (Option-cases (bucket_put db.ports (itoa q) (codes "1"))) [
        | inl refused ↦ ground arith
        | inr (c, g) ↦ (c, ground arith, ground arith, ground arith)
      ]
    ]

    take_port-Taken :
        (p : ℕ) (db' : Db Bucket)
        → IsPortBucket db.ports
        → take_port bolt lo hi db ≡ ok (p, db')
        → Taken lo hi db p db'
    take_port-Taken p db' d e =
        let (c, found, written, shape) = take_port-inversion p db' e in
        let (low, high, free, below) =
          find_free-some (hi + 1 - lo) lo (used_ports (entries db.ports) []) p found in
        rw shape (record {
          low = low;
          high = omega arith;
          free = sym (is_used-is_taken db.ports p d) ∙ free;
          least = λ q a b. sym (is_used-is_taken db.ports q d) ∙ below q a b;
          recorded = λ q. recorded-put db.ports c p q written;
          projects_kept = refl;
          mappings_kept = refl;
          still_decimal = IsPortBucket-put db.ports c p d written;
        })

    -- A free port in the range is enough for success.
    take_port-total :
        (q : ℕ)
        → IsPortBucket db.ports
        → lo ≤ q
        → q ≤ hi
        → is_taken db.ports q ≡ false
        → hi < 32768
        → (p : ℕ) × (db' : Db Bucket) × (take_port bolt lo hi db ≡ ok (p, db'))
    unfolding take_port
    take_port-total q d a b f small =
        let refused = find_free-none (hi + 1 - lo) lo (used_ports (entries db.ports) []) in
        elim (Option-cases choice) [
          | inl full ↦ ground (arith, refused full q a (omega arith), is_used-is_taken db.ports q d)
          | inr (p, e) ↦
              let (low, high, _, _) =
                find_free-some (hi + 1 - lo) lo (used_ports (entries db.ports) []) p e in
              let filled : itoa p ≢ [] = λ z. omega (arith, length-itoa p, ap length z) in
              let (c, g) =
                put_accepts db.ports (itoa p) (codes "1") filled (omega (arith, length-itoa p))
                  (omega arith) in
              (p, record db { ports = c }, ground arith)
        ]

  -- A successful `AllocatePort` returns the least port of the range that was not recorded, records
  -- it and no other, and touches nothing else of the file.
  pub allocate_port-Taken :
      (commits : Bool) (db : Db Bucket) (p : ℕ) (db' : Db Bucket)
      → IsPortBucket db.ports
      → allocate_port bolt commits db ≡ (ok p, db')
      → Taken min_port max_port db p db'
  unfolding allocate_port
  allocate_port-Taken commits db p db' d e =
      take_port-Taken min_port max_port db p db' d
        (transact-ok commits db (take_port bolt min_port max_port db) p db' e)

  -- If some port of the range is not recorded, and the transaction reaches the disk, `AllocatePort`
  -- succeeds.
  pub allocate_port_total :
      (db : Db Bucket) (q : ℕ)
      → IsPortBucket db.ports
      → min_port ≤ q
      → q ≤ max_port
      → is_taken db.ports q ≡ false
      → (p : ℕ) × (db' : Db Bucket) × (allocate_port bolt true db ≡ (ok p, db'))
  unfolding allocate_port
  allocate_port_total db q d a b f =
      let (p, db', e) = take_port-total min_port max_port db q d a b f (omega arith) in
      (p, db', rw e)

  -- A failed `AllocatePort` leaves the file as it was.
  pub allocate_port_failed :
      (commits : Bool) (db : Db Bucket) (e : Error) (db' : Db Bucket)
      → allocate_port bolt commits db ≡ (err e, db')
      → db' ≡ db
  unfolding allocate_port
  allocate_port_failed commits db e db' h =
      transact-err commits db (take_port bolt min_port max_port db) e db' h

  -- A second allocation returns a higher port than the first.
  allocate_port_twice :
      (c d : Bool) (db : Db Bucket) (p : ℕ) (mid : Db Bucket) (q : ℕ) (db' : Db Bucket)
      → IsPortBucket db.ports
      → allocate_port bolt c db ≡ (ok p, mid)
      → allocate_port bolt d mid ≡ (ok q, db')
      → p < q
  allocate_port_twice c d db p mid q db' k e f =
      let first = allocate_port-Taken c db p mid k e in
      let second = allocate_port-Taken d mid q db' first.still_decimal f in
      elim (dec_lt p q) [
        | yes less ↦ less
        | no more ↦ absurd (collision first second (omega arith))
      ]
    where
      collision : Taken min_port max_port db p mid → Taken min_port max_port mid q db' → q ≤ p → ⊥
      collision first second le = elim (ℕ_discrete q p) [
        | yes same ↦ ground (arith, second.free, first.recorded q, nat_beq_iff p q)
        | no other ↦
            ground (arith, second.free, first.recorded q, first.least q second.low (omega arith))
      ]

  -- To release the port just allocated frees it and no other, whatever else the file holds.
  release-allocate_port :
      (c : Bool) (db : Db Bucket) (p : ℕ) (mid : Db Bucket)
      → IsPortBucket db.ports
      → allocate_port bolt c db ≡ (ok p, mid)
      → (db' : Db Bucket) × (release_port bolt true (pos p) mid ≡ (ok tt, db'))
        × ((q : ℕ) → is_taken db'.ports q ≡ is_taken db.ports q)
        × (db'.projects ≡ db.projects)
        × (db'.subdomain_mappings ≡ db.subdomain_mappings)
  unfolding release_port
  release-allocate_port c db p mid k e =
      let first = allocate_port-Taken c db p mid k e in
      (
        record mid { ports = delete mid.ports (itoa p) },
        refl,
        (λ q. ground (
          arith,
          get-delete mid.ports (itoa p) (itoa q),
          bytes_beq_iff (itoa p) (itoa q),
          itoa-injective p q,
          first.recorded q,
          first.free,
          nat_beq_iff p q,
        )),
        first.projects_kept,
        first.mappings_kept,
      )
