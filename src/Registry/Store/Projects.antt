-- ===== src/Registry/Store/Projects.antt =====
-- internal/registry/store.go: the methods on projects.
pub mod Laws
pub mod Lookup
use localproxy.Base.{
  ℕ, ℤ, pos, Bytes, List, [], ◌∷◌, Option, none, some, Bool, true, false, ◌&&◌, if◌then◌else◌,
  bytes_beq, is_positive,
}
use localproxy.Registry.Bolt.{Bolt, Codec}
use localproxy.Registry.Mapping.{Project}
use localproxy.Registry.Store.{
  Db, Result, ok, err, not_found, bad_json, put_failed, ◌>>=◌, or_err, format_int, transact,
}

-- The error, the file, and whether `onChange` was called.
pub record Outcome (B : Type 0) : Type 0 where
  pub result : Result (Unit {0})
  pub db : Db B
  pub notified : Bool

abbrev pub is_ok : {A : Type 0} → Result A → Bool
is_ok (ok _) = true
is_ok (err _) = false

module _ (bolt : Bolt) (json : Codec Project) where
  open bolt use {Bucket, get, put as bucket_put, delete, entries}
  open json use {marshal, unmarshal}

  unfoldable pub add_project : Bool → Project → Db Bucket → Outcome Bucket
  add_project commits p db =
      let tx : Result (Unit {0} × Db Bucket) =
        or_err put_failed (bucket_put db.projects p.name (marshal p)) >>= λ b.
        ok (tt, record db { projects = b }) in
      let (r, db') = transact commits db tx in record { result = r; db = db'; notified = is_ok r }

  -- `port` as `RemoveProject` reads it: 0 for a project that is not there or does not parse.
  abbrev pub stored_port : Db Bucket → Bytes → ℤ
  stored_port db name = elim (get db.projects name) [
    | none ↦ pos 0
    | some text ↦ elim (unmarshal text) [ none ↦ pos 0 | some p ↦ p.port ]
  ]

  -- The second transaction has its own commit, and its error is dropped.
  unfoldable pub remove_project : Bool → Bool → Bytes → Db Bucket → Outcome Bucket
  remove_project commits commits_port name db =
      let port = stored_port db name in
      let tx : Result (Unit {0} × Db Bucket) =
        ok (tt, record db { projects = delete db.projects name }) in
      let (r, mid) = transact commits db tx in
      let freed : Result (Unit {0} × Db Bucket) =
        ok (tt, record mid { ports = delete mid.ports (format_int port) }) in
      if is_ok r && is_positive port
      then record { result = r; db = (transact commits_port mid freed).1; notified = true }
      else record { result = r; db = mid; notified = false }

  unfoldable pub get_project : Bytes → Db Bucket → Result Project
  get_project name db = do
    text ← or_err not_found (get db.projects name)
    or_err bad_json (unmarshal text)

  -- `ForEach` stops at the first value that does not parse.
  pub parse_all : List (Bytes × Bytes) → Result (List Project)
  parse_all [] = ok []
  parse_all ((k, v) ∷ m) = or_err bad_json (unmarshal v) >>= λ p. parse_all m >>= λ ps. ok (p ∷ ps)

  pub list_projects : Db Bucket → Result (List Project)
  unfolding parse_all
  list_projects db = parse_all (entries db.projects)

  pub first_of_subdomain : Bytes → List Project → Result Project
  first_of_subdomain subdomain [] = err not_found
  first_of_subdomain subdomain (p ∷ ps) =
      if bytes_beq p.subdomain subdomain then ok p else first_of_subdomain subdomain ps

  pub get_project_by_subdomain : Bytes → Db Bucket → Result Project
  unfolding list_projects first_of_subdomain
  get_project_by_subdomain subdomain db = list_projects db >>= λ ps. first_of_subdomain subdomain ps
