-- ===== src/Commands/Init.antt =====
-- What `localproxy init` leaves for `localproxy add`.
use localproxy.Base.{
  pos, ◌≡◌, refl, Bytes, codes, [], ◌∷◌, none, some, true, false, if◌then◌else◌, bytes_beq,
  bytes_beq_iff, bytes_eq, arith,
}
use localproxy.Base.GoMap.{lookup, put, lookup-put}
use localproxy.Config.{
  ProjectConfig, ConfigFiles, Write, whole, config_path, config_exists, load_config, save_config,
}
use localproxy.Registry.Bolt.{Codec}
use localproxy.Commands.{init_cmd}

-- The configuration of a new project.
abbrev initial : Bytes → Bytes → ProjectConfig
initial name subdomain = record {
  name = name;
  subdomain = subdomain;
  port = pos 0;
  env = (codes "PORT", codes "{{.Port}}") ∷ [];
}

-- In a directory without a configuration, and if the new one survives its encoding, `init` writes one that
-- `LoadConfig` reads with the name as its subdomain, and every other file stays; a second `init` there is
-- refused.
init_cmd_lem :
    (yaml : Codec ProjectConfig) (disk : ConfigFiles) (dir name : Bytes)
    → config_exists disk dir ≡ false
    → yaml.unmarshal (yaml.marshal (initial name [])) ≡ some (initial name [])
    → (disk' : ConfigFiles) × (init_cmd yaml whole disk dir name ≡ some (true, disk'))
      × (load_config yaml disk' dir ≡ some (initial name name))
      × ((write : Write) (other : Bytes) → init_cmd yaml write disk' dir other ≡ none)
      × ((path : Bytes)
          → lookup path disk' ≡ (
              if bytes_beq (config_path dir) path
              then some (yaml.marshal (initial name []))
              else lookup path disk))
unfolding init_cmd save_config load_config
init_cmd_lem yaml disk dir name fresh survives =
    let text = yaml.marshal (initial name []) in
    let found : lookup (config_path dir) (put (config_path dir) text disk) ≡ some text = ground (
      arith,
      lookup-put (config_path dir) (config_path dir) text disk,
      bytes_beq_iff (config_path dir) (config_path dir),
    ) in
    (
      put (config_path dir) text disk,
      rw (init_cmd, fresh) refl,
      rw (load_config, found) (rw survives refl),
      λ write other. rw (init_cmd, found) refl,
      λ path. lookup-put (config_path dir) path text disk,
    )
