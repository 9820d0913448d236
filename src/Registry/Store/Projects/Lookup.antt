-- ===== src/Registry/Store/Projects/Lookup.antt =====
-- How the lookups of projects by name, by subdomain and in a list agree.
use localproxy.Base.{
  ℕ, zero, suc, ◌≡◌, refl, ◌∙◌, Bytes, List, [], ◌∷◌, some, bytes_beq, bytes_beq_iff, bytes_eq,
  get_elem?, Bool-cases, Option-cases, inl, inr, arith,
}
use localproxy.Base.GoMap.{lookup, HasUniqueKeys}
use localproxy.Registry.Bolt.{Bolt, Codec}
use localproxy.Registry.Mapping.{Project}
use localproxy.Registry.Store.{Db, Result-cases, ok}
use localproxy.Registry.Store.Projects.{
  parse_all, list_projects, get_project, first_of_subdomain, get_project_by_subdomain,
}

-- The project stands in the list.
abbrev pub IsListed : Project → List Project → Type 0
IsListed p ps = (i : ℕ) × (get_elem? ps i ≡ some p)

module _ (bolt : Bolt) (json : Codec Project) where
  open bolt use {Bucket, get, entries, lookup-entries, entries_unique}
  open json use {unmarshal}

  -- The list of a bucket that parses, one entry at a time.
  parse_all-cons :
      (k v : Bytes) (m : List (Bytes × Bytes)) (ps : List Project)
      → parse_all bolt json ((k, v) ∷ m) ≡ ok ps
      → (p : Project) × (rest : List Project) × (unmarshal v ≡ some p)
        × (parse_all bolt json m ≡ ok rest)
        × (ps ≡ p ∷ rest)
  unfolding parse_all
  parse_all-cons k v m ps e = elim (Option-cases (unmarshal v)) [
    | inl bad ↦ absurd (ground arith)
    | inr (p, f) ↦ elim (Result-cases (parse_all bolt json m)) [
      | inl (rest, g) ↦ (p, rest, f, g, ground arith)
      | inr (bad, g) ↦ absurd (ground arith)
    ]
  ]

  -- Every value of a bucket that parses is in the list.
  lookup→listed :
      (m : List (Bytes × Bytes)) (ps : List Project) (name v : Bytes) (p : Project)
      → parse_all bolt json m ≡ ok ps
      → lookup name m ≡ some v
      → unmarshal v ≡ some p
      → IsListed p ps
  lookup→listed [] ps name v p e f g = absurd (ground arith)
  lookup→listed ((k, w) ∷ m) ps name v p e f g =
      let (q, rest, h, l, c) = parse_all-cons k w m ps e in
      elim (Bool-cases (bytes_beq k name)) [
        | inl here ↦ (0, ground arith)
        | inr there ↦
            let (i, at) = lookup→listed m rest name v p l (ground arith) g in (suc i, ground arith)
      ]

  -- Every project of the list is the value of some name.
  listed→lookup :
      (m : List (Bytes × Bytes)) (ps : List Project) (p : Project) (i : ℕ)
      → parse_all bolt json m ≡ ok ps
      → HasUniqueKeys m
      → get_elem? ps i ≡ some p
      → (name v : Bytes) × (lookup name m ≡ some v) × (unmarshal v ≡ some p)
  unfolding parse_all
  listed→lookup [] ps p i e u at = absurd (ground arith)
  listed→lookup ((k, w) ∷ m) ps p zero e u at =
      let (q, rest, h, l, c) = parse_all-cons k w m ps e in
      (k, w, ground (arith, bytes_beq_iff k k), ground arith)
  listed→lookup ((k, w) ∷ m) ps p (suc i) e u at =
      let (q, rest, h, l, c) = parse_all-cons k w m ps e in
      let (name, v, f, g) = listed→lookup m rest p i l u.1 (ground arith) in
      (name, v, ground (arith, bytes_beq_iff k name), g)

  first_of_subdomain-ok :
      (s : Bytes) (ps : List Project) (p : Project)
      → first_of_subdomain bolt json s ps ≡ ok p
      → (p.subdomain ≡ s) × IsListed p ps
  unfolding first_of_subdomain
  first_of_subdomain-ok s [] p e = absurd (ground arith)
  first_of_subdomain-ok s (q ∷ ps) p e = elim (Bool-cases (bytes_beq q.subdomain s)) [
    | inl here ↦ (ground (arith, bytes_beq_iff q.subdomain s), (0, ground arith))
    | inr there ↦
        let (f, (i, at)) = first_of_subdomain-ok s ps p (ground arith) in (f, (suc i, ground arith))
  ]

  listed→found :
      (s : Bytes) (ps : List Project) (p : Project) (i : ℕ)
      → get_elem? ps i ≡ some p
      → p.subdomain ≡ s
      → (q : Project) × (first_of_subdomain bolt json s ps ≡ ok q)
  unfolding first_of_subdomain
  listed→found s [] p zero at e = absurd (ground arith)
  listed→found s [] p (suc i) at e = absurd (ground arith)
  listed→found s (q ∷ ps) p zero at e = (q, ground (arith, bytes_beq_iff q.subdomain s))
  listed→found s (q ∷ ps) p (suc i) at e = elim (Bool-cases (bytes_beq q.subdomain s)) [
    | inl here ↦ (q, ground arith)
    | inr there ↦ let (found, f) = listed→found s ps p i at e in (found, ground arith)
  ]

  get_project-value :
      (db : Db Bucket) (name : Bytes) (p : Project)
      → get_project bolt json name db ≡ ok p
      → (v : Bytes) × (get db.projects name ≡ some v) × (unmarshal v ≡ some p)
  unfolding get_project
  get_project-value db name p e = elim (Option-cases (get db.projects name)) [
    | inl absent ↦ absurd (ground arith)
    | inr (v, f) ↦ elim (Option-cases (unmarshal v)) [
      | inl bad ↦ absurd (ground arith)
      | inr (q, g) ↦ (v, f, ground arith)
    ]
  ]

  -- The project that `GetProjectBySubdomain` returns has the subdomain, and `GetProject` returns it for
  -- some name.
  get_project_by_subdomain-ok :
      (db : Db Bucket) (s : Bytes) (p : Project)
      → get_project_by_subdomain bolt json s db ≡ ok p
      → (p.subdomain ≡ s) × (name : Bytes) × (get_project bolt json name db ≡ ok p)
  unfolding get_project_by_subdomain list_projects get_project
  get_project_by_subdomain-ok db s p e = elim (Result-cases (list_projects bolt json db)) [
    | inr (bad, f) ↦ absurd (ground arith)
    | inl (ps, f) ↦
        let (same, (i, at)) = first_of_subdomain-ok s ps p (ground arith) in
        let (name, v, g, h) =
          listed→lookup (entries db.projects) ps p i f (entries_unique db.projects) at in
        (same, name, ground (arith, lookup-entries db.projects name))
  ]

  -- In a file whose projects all parse, `ListProjects` has every project that `GetProject` returns for
  -- some name, and `GetProjectBySubdomain` finds one for the subdomain of each of them.
  get_project-IsListed :
      (db : Db Bucket) (ps : List Project) (name : Bytes) (p : Project)
      → list_projects bolt json db ≡ ok ps
      → get_project bolt json name db ≡ ok p
      → IsListed p ps × (q : Project) × (get_project_by_subdomain bolt json p.subdomain db ≡ ok q)
  unfolding get_project_by_subdomain list_projects get_project
  get_project-IsListed db ps name p e f =
      let (v, g, h) = get_project-value db name p f in
      let (i, at) =
        lookup→listed (entries db.projects) ps name v p e (lookup-entries db.projects name ∙ g) h in
      let (q, found) = listed→found p.subdomain ps p i at refl in ((i, at), q, ground arith)
