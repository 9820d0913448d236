-- ===== src/Config.antt =====
-- internal/config/config.go: the file .localproxy.yaml of a directory, on a disk that maps paths to what
-- the files hold. `gopkg.in/yaml.v3` is a `Codec`.
use localproxy.Base.{
  ℤ, Bytes, codes, [], ◌++◌, Option, none, some, Bool, true, false, if◌then◌else◌, bytes_beq,
  bytes_eq, is_some,
}
use localproxy.Base.GoMap.{GoMap, lookup, put}
use localproxy.Registry.Bolt.{Codec}

pub record ProjectConfig : Type 0 where
  pub name : Bytes
  pub subdomain : Bytes
  pub port : ℤ
  pub env : GoMap Bytes Bytes

abbrev pub ConfigFiles : Type 0
ConfigFiles = GoMap Bytes Bytes

-- How `os.WriteFile` ends.
pub data Write : Type 0 where
  whole : Write
  broken : Option Bytes → Write

abbrev config_file_name : Bytes
config_file_name = codes ".localproxy.yaml"

-- `filepath.Join(dir, ConfigFileName)`, for a path `dir` that is clean.
abbrev pub config_path : Bytes → Bytes
config_path dir =
    if bytes_beq dir (codes "/")
    then dir ++ config_file_name
    else dir ++ (codes "/" ++ config_file_name)

abbrev with_subdomain : ProjectConfig → ProjectConfig
with_subdomain cfg = if bytes_beq cfg.subdomain [] then record cfg { subdomain = cfg.name } else cfg

module _ (yaml : Codec ProjectConfig) where
  open yaml use {marshal, unmarshal}

  -- `LoadConfig`; `none` is its error.
  unfoldable pub load_config : ConfigFiles → Bytes → Option ProjectConfig
  load_config disk dir = elim (lookup (config_path dir) disk) [
    | none ↦ none
    | some text ↦ elim (unmarshal text) [ none ↦ none | some cfg ↦ some (with_subdomain cfg) ]
  ]

  -- `SaveConfig`; a write may fail, and then leave some text.
  unfoldable pub save_config : Write → ConfigFiles → Bytes → ProjectConfig → Bool × ConfigFiles
  save_config whole disk dir cfg = (true, put (config_path dir) (marshal cfg) disk)
  save_config (broken none) disk dir cfg = (false, disk)
  save_config (broken (some left)) disk dir cfg = (false, put (config_path dir) left disk)

-- `ConfigExists`
abbrev pub config_exists : ConfigFiles → Bytes → Bool
config_exists disk dir = is_some (lookup (config_path dir) disk)
