-- ===== src/Registry/Store/Mappings/Laws.antt =====
-- What the mapping lookups answer, and how a mapping renames a process.
use localproxy.Base.{
  ℕ, ◌≡◌, refl, Bytes, codes, List, [], ◌∷◌, ◌++◌, some, Bool, true, false, ◌&&◌, if◌then◌else◌,
  bytes_beq, bytes_beq_iff, keep_if, Option-cases, inl, inr, arith,
}
use localproxy.Registry.Bolt.{Bolt, Codec}
use localproxy.Registry.Mapping.{SubdomainMapping}
use localproxy.Registry.Store.{Db, ok, err, not_found, ◌>>=◌}
use localproxy.Registry.Store.Projects.{is_ok}
use localproxy.Registry.Store.Mappings.{
  add_subdomain_mapping, remove_subdomain_mapping, parse_for_folder, get_mappings_for_folder,
  parse_mappings, list_mappings, get_mapping_by_cwd, store_mappings,
}
use localproxy.Discovery.Types.{DiscoveredService, Heap}
use localproxy.Registry.Routes.{RouteRegistry, needs_mapping, resolve_subdomain}
use localproxy.Registry.Routes.Resolve.{resolve_subdomain_mapped}

module _ (bolt : Bolt) (json : Codec SubdomainMapping) where
  open bolt use {Bucket, get, put as bucket_put, delete, get-put, get-delete}
  open json use {marshal, unmarshal}

  -- `AddSubdomainMapping` tells its listener exactly when it succeeds. A success makes the directory
  -- of the mapping answer with the mapping, if that survives its encoding; every other directory
  -- answers as before, and so does every one after a failure.
  pub get-add_subdomain_mapping :
      (commits : Bool) (m : SubdomainMapping) (db : Db Bucket) (cwd : Bytes)
      → unmarshal (marshal m) ≡ some m
      → let o = add_subdomain_mapping bolt json commits m db in
        (o.notified ≡ is_ok o.result)
        × (get_mapping_by_cwd bolt json cwd o.db ≡ (
            if is_ok o.result && bytes_beq m.cwd cwd
            then ok m
            else get_mapping_by_cwd bolt json cwd db))
  unfolding add_subdomain_mapping get_mapping_by_cwd
  get-add_subdomain_mapping commits m db cwd survives =
      elim (Option-cases (bucket_put db.subdomain_mappings m.cwd (marshal m))) [
        | inl refused ↦ ground arith
        | inr (c, e) ↦ ground (arith, get-put db.subdomain_mappings m.cwd (marshal m) c cwd e)
      ]

  -- `RemoveSubdomainMapping` makes the directory unknown if it commits, leaves every other one, and
  -- tells its listener exactly when it succeeds.
  get-remove_subdomain_mapping :
      (commits : Bool) (gone : Bytes) (db : Db Bucket) (cwd : Bytes)
      → let o = remove_subdomain_mapping bolt json commits gone db in
        (o.notified ≡ commits)
        × (get_mapping_by_cwd bolt json cwd o.db ≡ (
            if commits && bytes_beq gone cwd
            then err not_found
            else get_mapping_by_cwd bolt json cwd db))
  unfolding remove_subdomain_mapping get_mapping_by_cwd
  get-remove_subdomain_mapping commits gone db cwd =
      (ground arith, ground (arith, get-delete db.subdomain_mappings gone cwd))

  parse_for_folder-parse_mappings :
      (folder : Bytes) (m : List (Bytes × Bytes))
      → parse_for_folder bolt json folder m
        ≡ parse_mappings bolt json m >>= λ ms.
            ok (keep_if (λ p. bytes_beq p.folder_group folder) ms)
  unfolding parse_for_folder parse_mappings
  parse_for_folder-parse_mappings folder [] = refl
  parse_for_folder-parse_mappings folder ((k, v) ∷ rest) =
      ground (arith, parse_for_folder-parse_mappings folder rest)

  -- The mappings of a folder are those of `ListMappings` with that folder, in order; where that fails
  -- this fails, with the same error.
  get_mappings_for_folder_lem :
      (folder : Bytes) (db : Db Bucket)
      → get_mappings_for_folder bolt json folder db
        ≡ list_mappings bolt json db >>= λ ms.
            ok (keep_if (λ p. bytes_beq p.folder_group folder) ms)
  unfolding get_mappings_for_folder list_mappings
  get_mappings_for_folder_lem folder db =
      parse_for_folder-parse_mappings folder (bolt.entries db.subdomain_mappings)

  -- A process that needs a mapping and runs in the directory of a mapping just added is registered
  -- under the subdomain and the folder of that mapping, and is enabled.
  pub resolve-add_subdomain_mapping :
      (m : SubdomainMapping) (db : Db Bucket) (r : RouteRegistry) (h : Heap)
      (svc : DiscoveredService) (a : ℕ)
      → unmarshal (marshal m) ≡ some m
      → svc.process ≡ some a
      → needs_mapping r h svc ≡ true
      → (h.process_at a).cwd ≡ m.cwd
      → is_ok (add_subdomain_mapping bolt json true m db).result ≡ true
      → let db' = (add_subdomain_mapping bolt json true m db).db in
        let (name, h') = resolve_subdomain r (store_mappings bolt json db') h svc in
        (name ≡ m.subdomain ++ (codes "." ++ m.folder_group)) × ((h'.process_at a).disabled ≡ false)
  unfolding store_mappings
  resolve-add_subdomain_mapping m db r h svc a survives e n here done =
      let db' = (add_subdomain_mapping bolt json true m db).db in
      let known = get-add_subdomain_mapping true m db (h.process_at a).cwd survives in
      let named = resolve_subdomain_mapped r (store_mappings bolt json db') h svc a e n in
      ground (arith, known, named, bytes_beq_iff m.cwd (h.process_at a).cwd)
