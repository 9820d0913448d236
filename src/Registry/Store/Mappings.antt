-- ===== src/Registry/Store/Mappings.antt =====
-- internal/registry/store.go: the methods on subdomain mappings.
pub mod Laws
use localproxy.Base.{
  Bytes, List, [], ◌∷◌, Option, none, some, Bool, true, false, if◌then◌else◌, bytes_beq, bytes_eq,
}
use localproxy.Base.GoMap.{GoMap, put}
use localproxy.Registry.Bolt.{Bolt, Codec}
use localproxy.Registry.Mapping.{SubdomainMapping}
use localproxy.Registry.Store.{
  Db, Result, ok, err, not_found, bad_json, put_failed, ◌>>=◌, or_err, transact,
}
use localproxy.Registry.Store.Projects.{Outcome, is_ok}
use localproxy.Registry.Routes.{Mappings}

module _ (bolt : Bolt) (json : Codec SubdomainMapping) where
  open bolt use {Bucket, get, put as bucket_put, delete, entries}
  open json use {marshal, unmarshal}

  unfoldable pub add_subdomain_mapping : Bool → SubdomainMapping → Db Bucket → Outcome Bucket
  add_subdomain_mapping commits m db =
      let tx : Result (Unit {0} × Db Bucket) =
        or_err put_failed (bucket_put db.subdomain_mappings m.cwd (marshal m)) >>= λ b.
        ok (tt, record db { subdomain_mappings = b }) in
      let (r, db') = transact commits db tx in record { result = r; db = db'; notified = is_ok r }

  -- `AddSubdomainMappingData`
  unfoldable pub add_subdomain_mapping_data :
      Bool → Bytes → Bytes → Bytes → Db Bucket → Outcome Bucket
  unfolding add_subdomain_mapping
  add_subdomain_mapping_data commits folder_group subdomain cwd db =
      add_subdomain_mapping commits
        (record { folder_group = folder_group; subdomain = subdomain; cwd = cwd }) db

  pub remove_subdomain_mapping : Bool → Bytes → Db Bucket → Outcome Bucket
  remove_subdomain_mapping commits cwd db =
      let tx : Result (Unit {0} × Db Bucket) =
        ok (tt, record db { subdomain_mappings = delete db.subdomain_mappings cwd }) in
      let (r, db') = transact commits db tx in record { result = r; db = db'; notified = is_ok r }

  -- The `ForEach` of `GetMappingsForFolder`.
  unfoldable pub parse_for_folder : Bytes → List (Bytes × Bytes) → Result (List SubdomainMapping)
  parse_for_folder folder [] = ok []
  parse_for_folder folder ((k, v) ∷ rest) = or_err bad_json (unmarshal v) >>= λ m.
      parse_for_folder folder rest >>= λ ms.
      ok (if bytes_beq m.folder_group folder then m ∷ ms else ms)

  unfoldable pub get_mappings_for_folder : Bytes → Db Bucket → Result (List SubdomainMapping)
  get_mappings_for_folder folder db = parse_for_folder folder (entries db.subdomain_mappings)

  -- The `ForEach` of `ListMappings`.
  pub parse_mappings : List (Bytes × Bytes) → Result (List SubdomainMapping)
  parse_mappings [] = ok []
  parse_mappings ((k, v) ∷ rest) =
      or_err bad_json (unmarshal v) >>= λ m. parse_mappings rest >>= λ ms. ok (m ∷ ms)

  pub list_mappings : Db Bucket → Result (List SubdomainMapping)
  list_mappings db = parse_mappings (entries db.subdomain_mappings)

  pub get_mapping_by_cwd : Bytes → Db Bucket → Result SubdomainMapping
  get_mapping_by_cwd cwd db = do
    text ← or_err not_found (get db.subdomain_mappings cwd)
    or_err bad_json (unmarshal text)

  unfoldable pub by_cwd : List SubdomainMapping → GoMap Bytes Bytes → GoMap Bytes Bytes
  by_cwd [] found = found
  by_cwd (m ∷ ms) found = by_cwd ms (put m.cwd m.subdomain found)

  unfoldable pub get_mapping_subdomains_by_cwd : Bytes → Db Bucket → Result (GoMap Bytes Bytes)
  get_mapping_subdomains_by_cwd folder db =
      get_mappings_for_folder folder db >>= λ ms. ok (by_cwd ms [])

  -- The store as the route registry reads it: a mapping where `GetMappingByCwd` has no error.
  pub store_mappings : Db Bucket → Mappings
  store_mappings db =
      some (λ cwd. elim (get_mapping_by_cwd cwd db) [ ok m ↦ some m | err _ ↦ none ])
