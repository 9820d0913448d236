-- ===== src/Commands.antt =====
-- cmd/localproxy/commands: the commands that write the file of projects or a configuration (add.go,
-- remove.go, init.go). A command opens the file of projects, works on it, and closes it; `db` is what it
-- finds there, where the file can be opened.
pub mod Added
pub mod Removed
pub mod Init
mod Tests
use localproxy.Base.{
  ℕ, ℤ, pos, Bytes, codes, List, [], ◌∷◌, Option, none, some, Bool, true, false, if◌then◌else◌,
  int_beq,
}
use localproxy.Config.{ProjectConfig, Write, ConfigFiles, load_config, save_config, config_exists}
use localproxy.Registry.Bolt.{Bolt, Codec}
use localproxy.Registry.Mapping.{Project}
use localproxy.Registry.Store.{Db, Result, ok, err, Error}
use localproxy.Registry.Store.Ports.{allocate_port}
use localproxy.Registry.Store.Projects.{Outcome, add_project, remove_project, get_project}

-- How a command ends.
pub data Ending : Type 0 where
  no_config : Ending
  already_registered : Project → Ending
  registered : Project → Ending
  removed : Ending
  failed : Error → Ending

-- The project that `add` registers.
abbrev pub project_of : ProjectConfig → Bytes → ℤ → Project
project_of cfg dir port = record {
  name = cfg.name;
  subdomain = cfg.subdomain;
  port = port;
  path = dir;
  source = codes "filesystem";
  container = [];
}

module _ (bolt : Bolt) (json : Codec Project) where
  open bolt use {Bucket}

  -- `port`: the one of the configuration, or a new one. The Boolean says whether that transaction commits.
  pub port_for : Bool → ProjectConfig → Db Bucket → Result ℤ × Db Bucket
  port_for commits cfg db =
      if int_beq cfg.port (pos 0)
      then (let (r, db') = allocate_port bolt commits db in
          (elim r [ ok n ↦ ok (pos n) | err e ↦ err e ], db'))
      else (ok cfg.port, db)

  -- The end of `AddCmd`, once the port is chosen.
  pub register_project : Bool → ProjectConfig → Bytes → Result ℤ × Db Bucket → Ending × Db Bucket
  register_project commits cfg dir (err e, db) = (failed e, db)
  register_project commits cfg dir (ok port, db) =
      let p = project_of cfg dir port in
      let o = add_project bolt json commits p db in
      elim o.result [ err e ↦ (failed e, o.db) | ok _ ↦ (registered p, o.db) ]

  -- `AddCmd`, from the configuration of the directory.
  pub add_cmd : Bool → Bool → Option ProjectConfig → Bytes → Db Bucket → Ending × Db Bucket
  unfolding port_for register_project
  add_cmd commits_port commits none dir db = (no_config, db)
  add_cmd commits_port commits (some cfg) dir db = elim (get_project bolt json cfg.name db) [
    | ok existing ↦ (already_registered existing, db)
    | err _ ↦ register_project commits cfg dir (port_for commits_port cfg db)
  ]

  -- `RemoveCmd`
  pub remove_cmd : Bool → Bool → Bytes → Db Bucket → Ending × Db Bucket
  remove_cmd commits commits_port name db =
      let o = remove_project bolt json commits commits_port name db in
      elim o.result [ err e ↦ (failed e, o.db) | ok _ ↦ (removed, o.db) ]

-- `InitCmd` in a directory, for a name; `none` says that there is a configuration already.
pub init_cmd :
    Codec ProjectConfig → Write → ConfigFiles → Bytes → Bytes → Option (Bool × ConfigFiles)
unfolding save_config
init_cmd yaml write disk dir name =
    if config_exists disk dir
    then none
    else some (
        save_config yaml write disk dir (record {
          name = name;
          subdomain = [];
          port = pos 0;
          env = (codes "PORT", codes "{{.Port}}") ∷ [];
        }))
