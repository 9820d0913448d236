-- ===== src/Registry/Store/ListBolt.antt =====
-- A concrete bucket, and a concrete encoding, for what internal/registry/store.go relies on.
use localproxy.Base.{
  ℕ, ◌-◌, ◌^◌, ◌≤◌, ◌≡◌, ◌≢◌, ◌++◌, refl, sym, ap, ◌∙◌, Bool-cases, inl, inr, ℤ, pos, Bytes, [],
  ◌∷◌, Option, none, some, Bool, true, false, ◌||◌, length, take, drop, ltb, if◌then◌else◌,
  bytes_beq, bytes_beq_iff, bytes_eq, arith,
}
use localproxy.Base.GoMap.{
  GoMap, lookup, put, delete, lookup-put, lookup-delete, HasUniqueKeys, HasUniqueKeys-put,
  HasUniqueKeys-delete,
}
use localproxy.Registry.Bolt.{Bolt, Codec}
use localproxy.Registry.Mapping.{SubdomainMapping, Project}
use localproxy.Registry.Store.{Db}

-- A bucket as a list of pairs.
pub record ListBucket : Type 0 where
  pub pairs : GoMap Bytes Bytes
  pub unique : HasUniqueKeys pairs

-- `Bucket.Put` with the limits of bbolt.
abbrev fits : Bytes → Bytes → Bool
fits k v =
    if bytes_beq k [] || (ltb 32768 (length k) || ltb (2 ^ 31 - 2) (length v)) then false else true

abbrev pub stored : ListBucket → Bytes → Bytes → ListBucket
stored b k v = record { pairs = put k v b.pairs; unique = HasUniqueKeys-put k v b.pairs b.unique }

abbrev list_put : ListBucket → Bytes → Bytes → Option ListBucket
list_put b k v = if fits k v then some (stored b k v) else none

abbrev list_delete : ListBucket → Bytes → ListBucket
list_delete b k = record {
  pairs = delete k b.pairs;
  unique = HasUniqueKeys-delete k b.pairs b.unique;
}

pairs_of : Option ListBucket → GoMap Bytes Bytes
pairs_of none = []
pairs_of (some b) = b.pairs

pub list_get-put :
    (b : ListBucket) (k v : Bytes) (c : ListBucket) (j : Bytes)
    → list_put b k v ≡ some c
    → lookup j c.pairs ≡ (if bytes_beq k j then some v else lookup j b.pairs)
unfolding pairs_of
list_get-put b k v c j e = elim (Bool-cases (fits k v)) [
  | inl fit ↦
      let put_eq : some (stored b k v) ≡ some c = rw fit at e in
      sym (ap (λ o. lookup j (pairs_of o)) put_eq) ∙ lookup-put k j v b.pairs
  | inr bad ↦ let refused : none ≡ some c = rw bad at e in cc
]

pub list_put_accepts :
    (b : ListBucket) (k v : Bytes)
    → k ≢ []
    → length k ≤ 32768
    → length v ≤ 2 ^ 31 - 2
    → (c : ListBucket) × (list_put b k v ≡ some c)
list_put_accepts b k v ne small short =
    let fit : fits k v ≡ true = ground (arith, bytes_beq_iff k []) in (stored b k v, rw fit)

abbrev pub list_bolt : Bolt
list_bolt = record {
  Bucket = ListBucket;
  get = λ b k. lookup k b.pairs;
  put = list_put;
  delete = list_delete;
  entries = λ b. b.pairs;
  get-put = list_get-put;
  get-delete = λ b k j. lookup-delete k j b.pairs;
  lookup-entries = λ b k. refl;
  entries_unique = λ b. b.unique;
  put_accepts = list_put_accepts;
}

-- A field behind its length.
abbrev field : Bytes → Bytes
field s = length s ∷ s

abbrev read_field : Bytes → Bytes × Bytes
read_field [] = ([], [])
read_field (n ∷ rest) = (take n rest, drop n rest)

abbrev read_mapping : Bytes → Option SubdomainMapping
read_mapping text =
    let a = read_field text in
    let b = read_field a.1 in
    some (record { folder_group = a.0; subdomain = b.0; cwd = (read_field b.1).0 })

abbrev pub mapping_json : Codec SubdomainMapping
mapping_json = record {
  marshal = λ m. field m.folder_group ++ (field m.subdomain ++ field m.cwd);
  unmarshal = read_mapping;
}

-- Only the name and a non-negative port are kept; the other fields read back empty.
abbrev read_project : Bytes → Option Project
read_project [] = none
read_project (n ∷ text) = some (record {
  name = (read_field text).0;
  subdomain = [];
  port = pos n;
  path = [];
  source = [];
  container = [];
})

abbrev port_of : ℤ → ℕ
port_of (pos n) = n
port_of _ = 0

abbrev pub project_json : Codec Project
project_json = record { marshal = λ p. port_of p.port ∷ field p.name; unmarshal = read_project }

abbrev pub empty_bucket : ListBucket
empty_bucket = record { pairs = []; unique = tt }

abbrev pub empty_db : Db ListBucket
empty_db = record {
  projects = empty_bucket;
  ports = empty_bucket;
  subdomain_mappings = empty_bucket;
}
