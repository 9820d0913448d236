-- ===== src/Dashboard/Mappings/Guarded.antt =====
-- What `handleSubdomainMapping` leaves behind a request to add a mapping.
use localproxy.Base.{
  ◌≡◌, Bytes, [], some, Bool, true, false, ◌&&◌, not, if◌then◌else◌, bytes_beq, inl, inr, arith,
}
use localproxy.Dashboard.Http.{Response, http_error, written}
use localproxy.Dashboard.Mappings.{Configured, add_mapping, handle_mapping, post}
use localproxy.Dashboard.Mappings.Label.{is_label, is_valid_subdomain-is_label}
use localproxy.Registry.Bolt.{Bolt, Codec}
use localproxy.Registry.Mapping.{SubdomainMapping}
use localproxy.Registry.Store.{Db, ok, Result-cases}
use localproxy.Registry.Store.Projects.{is_ok}
use localproxy.Registry.Store.Mappings.{
  add_subdomain_mapping, add_subdomain_mapping_data, get_mapping_by_cwd,
}
use localproxy.Registry.Store.Mappings.Laws.{get-add_subdomain_mapping}

abbrev pub is_written : {A : Type 0} → Response A → Bool
is_written (http_error _ _) = false
is_written (written _) = true

-- The three texts are given and the subdomain is a label.
abbrev pub is_proper : SubdomainMapping → Bool
is_proper m =
    (not (bytes_beq m.subdomain [])
      && (not (bytes_beq m.cwd []) && not (bytes_beq m.folder_group [])))
    && is_label m.subdomain

module _ (bolt : Bolt) (json : Codec SubdomainMapping) where
  open bolt use {Bucket}
  open json use {marshal, unmarshal}

  -- A request to add a mapping is answered without an error exactly when there is a store, its three
  -- texts are given, its subdomain is a label, and the store takes the mapping. Then, if the mapping
  -- survives its encoding, its directory answers with it, and the routes are refreshed where there is a
  -- registry. Every other directory, and every one after an error, answers as before.
  pub handle_mapping_lem :
      (server : Configured) (commits : Bool) (req : SubdomainMapping) (query : Bytes)
      (db : Db Bucket) (cwd : Bytes)
      → unmarshal (marshal req) ≡ some req
      → let h = handle_mapping bolt json server commits post (some req) query db in
        (is_written h.response ≡ (
          server.has_store
          && (is_proper req && is_ok (add_subdomain_mapping bolt json commits req db).result)))
        × (h.refreshed ≡ (is_written h.response && server.has_registry))
        × (get_mapping_by_cwd bolt json cwd h.db ≡ (
            if is_written h.response && bytes_beq req.cwd cwd
            then ok req
            else get_mapping_by_cwd bolt json cwd db))
  unfolding handle_mapping add_mapping add_subdomain_mapping_data
  handle_mapping_lem server commits req query db cwd survives =
      let label = is_valid_subdomain-is_label req.subdomain in
      let kept = get-add_subdomain_mapping bolt json commits req db cwd survives in
      elim (Result-cases (add_subdomain_mapping bolt json commits req db).result) [
        | inl (u, e) ↦ ground (arith, label, kept, e)
        | inr (x, e) ↦ ground (arith, label, kept, e)
      ]
