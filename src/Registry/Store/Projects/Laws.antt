-- ===== src/Registry/Store/Projects/Laws.antt =====
-- What a project lookup answers after an add and after a removal, and who is told.
use localproxy.Base.{
  ◌≡◌, Bytes, none, some, Bool, true, ◌&&◌, if◌then◌else◌, bytes_beq, is_positive, Option-cases,
  inl, inr, arith,
}
use localproxy.Registry.Bolt.{Bolt, Codec}
use localproxy.Registry.Mapping.{Project}
use localproxy.Registry.Store.{Db, ok, err, not_found, format_int}
use localproxy.Registry.Store.Projects.{
  is_ok, add_project, stored_port, remove_project, get_project,
}

module _ (bolt : Bolt) (json : Codec Project) where
  open bolt use {Bucket, get, put as bucket_put, delete, get-put, get-delete}
  open json use {marshal, unmarshal}

  -- `AddProject` tells its listener exactly when it succeeds. A success makes the name of the project
  -- answer with the project, if the project survives its encoding; every other name answers as before,
  -- and so does every name after a failure.
  pub get-add_project :
      (commits : Bool) (p : Project) (db : Db Bucket) (j : Bytes)
      → unmarshal (marshal p) ≡ some p
      → let o = add_project bolt json commits p db in
        (o.notified ≡ is_ok o.result)
        × (get_project bolt json j o.db
            ≡ (if is_ok o.result && bytes_beq p.name j then ok p else get_project bolt json j db))
  unfolding add_project get_project
  get-add_project commits p db j survives =
      elim (Option-cases (bucket_put db.projects p.name (marshal p))) [
        | inl refused ↦ ground arith
        | inr (c, e) ↦ ground (arith, get-put db.projects p.name (marshal p) c j e)
      ]

  -- A committed `RemoveProject` makes the name unknown and leaves every other project. It frees the
  -- port of the project, and calls the listener, only where the stored port is positive.
  pub get-remove_project :
      (commits_port : Bool) (name : Bytes) (db : Db Bucket) (j k : Bytes)
      → let o = remove_project bolt json true commits_port name db in
        let port = stored_port bolt json db name in
        (o.result ≡ ok tt)
        × (get_project bolt json j o.db
            ≡ (if bytes_beq name j then err not_found else get_project bolt json j db))
        × (get o.db.ports k ≡ (
            if is_positive port && (commits_port && bytes_beq (format_int port) k)
            then none
            else get db.ports k))
        × (o.notified ≡ is_positive port)
  unfolding remove_project get_project
  get-remove_project commits_port name db j k =
      let port = stored_port bolt json db name in
      let known = get-delete db.projects name j in
      let freed = get-delete db.ports (format_int port) k in
      (ground arith, ground (arith, known), ground (arith, freed), ground arith)
