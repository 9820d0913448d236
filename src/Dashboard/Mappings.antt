-- ===== src/Dashboard/Mappings.antt =====
-- internal/dashboard/server.go: the handlers of subdomain mappings, over the store. The body of a request
-- is what `encoding/json` decodes from it, and `commits` says whether the store's transaction reaches the
-- disk.
pub mod Label
pub mod Guarded
mod Tests
use localproxy.Base.{
  ℕ, zero, suc, ◌+◌, ◌-◌, Bytes, codes, List, [], ◌∷◌, length, Option, none, some, Bool, true,
  false, not, ◌&&◌, ◌||◌, if◌then◌else◌, ltb, leb, nat_beq, bytes_beq, bytes_eq,
}
use localproxy.Dashboard.Http.{Response, http_error, written}
use localproxy.Registry.Bolt.{Bolt, Codec}
use localproxy.Registry.Mapping.{SubdomainMapping}
use localproxy.Registry.Store.{Db, Result, ok, err, Error}
use localproxy.Registry.Store.Projects.{Outcome}
use localproxy.Registry.Store.Mappings.{add_subdomain_mapping_data, remove_subdomain_mapping}

abbrev pub is_label_byte : ℕ → Bool
is_label_byte c = (leb b'a' c && leb c b'z') || (leb b'0' c && leb c b'9')

-- The loop of `isValidSubdomain` from index `i`, in a text of `n` bytes. A byte above 127 belongs to a
-- rune that is no letter, no digit and no dash.
pub valid_from : ℕ → ℕ → Bytes → Bool
valid_from n i [] = true
valid_from n i (c ∷ s) =
    let rest = valid_from n (i + 1) s in
    if is_label_byte c || (nat_beq c b'-' && (ltb 0 i && ltb i (n - 1))) then rest else false

-- `isValidSubdomain`
pub is_valid_subdomain : Bytes → Bool
unfolding valid_from
is_valid_subdomain s =
    if nat_beq (length s) 0 || ltb 63 (length s) then false else valid_from (length s) 0 s

-- What a handler leaves: its answer, the file, and whether `RefreshRoutes` was called.
pub record Handled (B : Type 0) : Type 0 where
  pub response : Response (Unit {0})
  pub db : Db B
  pub refreshed : Bool

pub data Method : Type 0 where
  post : Method
  delete : Method
  other_method : Method

-- The server's `store` and `registry` may be missing; the store is the file then.
pub record Configured : Type 0 where
  pub has_store : Bool
  pub has_registry : Bool

abbrev pub refused : {B : Type 0} → ℕ → Bytes → Db B → Handled B
refused status text db = record { response = http_error status text; db = db; refreshed = false }

module _ (bolt : Bolt) (json : Codec SubdomainMapping) where
  open bolt use {Bucket}

  -- The end of both handlers, from what the store returned.
  abbrev pub finished : Configured → Bytes → Outcome Bucket → Handled Bucket
  finished server text o = elim o.result [
    | err _ ↦ refused 500 text o.db
    | ok _ ↦ record { response = written tt; db = o.db; refreshed = server.has_registry }
  ]

  -- `addSubdomainMapping`; the text of an error of the store is left out.
  pub add_mapping : Configured → Bool → Option SubdomainMapping → Db Bucket → Handled Bucket
  unfolding is_valid_subdomain add_subdomain_mapping_data
  add_mapping server commits body db =
      if not server.has_store then refused 500 (codes "store not configured") db else elim body [
        | none ↦ refused 400 (codes "invalid request body") db
        | some req ↦
            if bytes_beq req.subdomain [] || bytes_beq req.cwd [] || bytes_beq req.folder_group []
            then refused 400 (codes "subdomain, cwd, and folder_group are required") db
            else if not (is_valid_subdomain req.subdomain)
            then refused 400 (codes "invalid subdomain format") db
            else finished server (codes "failed to save mapping") (
                add_subdomain_mapping_data bolt json commits req.folder_group req.subdomain req.cwd
                  db)
      ]

  -- `removeSubdomainMapping`, with the query's `cwd`.
  pub remove_mapping : Configured → Bool → Bytes → Db Bucket → Handled Bucket
  remove_mapping server commits cwd db =
      if not server.has_store
      then refused 500 (codes "store not configured") db
      else if bytes_beq cwd []
      then refused 400 (codes "cwd parameter required") db
      else finished server (codes "failed to remove mapping")
          (remove_subdomain_mapping bolt json commits cwd db)

  -- `handleSubdomainMapping`
  pub handle_mapping :
      Configured → Bool → Method → Option SubdomainMapping → Bytes → Db Bucket → Handled Bucket
  unfolding add_mapping remove_mapping
  handle_mapping server commits post body cwd db = add_mapping server commits body db
  handle_mapping server commits delete body cwd db = remove_mapping server commits cwd db
  handle_mapping server commits other_method body cwd db =
      refused 405 (codes "method not allowed") db
