-- ===== src/Commands/Tests.antt =====
-- The commands at a concrete file, with a concrete encoding that keeps every field.
use localproxy.Base.{
  ℕ, itoa, length-itoa, pos, ◌-◌, ◌^◌, ap, ◌≡◌, ◌≤◌, refl, Bytes, codes, [], ◌∷◌, ◌++◌, length,
  take, drop, Option, none, some, true, if◌then◌else◌, bytes_beq, bytes_eq, arith,
}
use localproxy.Base.Atoi.{atoi, atoi-itoa}
use localproxy.Config.{ProjectConfig, whole, config_path, load_config, save_config}
use localproxy.Registry.Bolt.{Codec}
use localproxy.Registry.Mapping.{Project}
use localproxy.Registry.Store.{Db, ok, err, not_found, format_int}
use localproxy.Registry.Store.Ports.{min_port, max_port, allocate_port}
use localproxy.Registry.Store.Ports.Allocation.{IsPortBucket, is_taken, Taken}
use localproxy.Registry.Store.Projects.{get_project, add_project}
use localproxy.Registry.Store.ListBolt.{ListBucket, list_bolt, empty_bucket, empty_db}
use localproxy.Commands.{
  no_config, registered, removed, project_of, add_cmd, register_project, port_for, remove_cmd,
  init_cmd,
}
use localproxy.Commands.Added.{IsStorable, add_cmd_lem, allocate_port-add_cmd}
use localproxy.Commands.Removed.{remove_cmd-add_cmd}

-- Each text behind its length, and the port in decimal.
abbrev field : Bytes → Bytes
field s = length s ∷ s

abbrev head_field : Bytes → Bytes
head_field [] = []
head_field (n ∷ rest) = take n rest

abbrev behind_field : Bytes → Bytes
behind_field [] = []
behind_field (n ∷ rest) = drop n rest

abbrev write_project : Project → Bytes
write_project p =
    field p.name
    ++ (field p.subdomain
        ++ (field p.path ++ (field p.source ++ (field p.container ++ format_int p.port))))

abbrev read_project : Bytes → Option Project
read_project names =
    let subdomains = behind_field names in
    let paths = behind_field subdomains in
    let sources = behind_field paths in
    let containers = behind_field sources in
    some (record {
      name = head_field names;
      subdomain = head_field subdomains;
      port = atoi (behind_field containers);
      path = head_field paths;
      source = head_field sources;
      container = head_field containers;
    })

abbrev project_json : Codec Project
project_json = record { marshal = write_project; unmarshal = read_project }

abbrev shop : ProjectConfig
shop = record { name = codes "shop"; subdomain = codes "shop"; port = pos 0; env = [] }

abbrev own : ProjectConfig
own = record shop { port = pos 10000 }

shop-survives :
    (p : ℕ)
    → p ≤ max_port
    → read_project (write_project (project_of shop (codes "/p/shop") (pos p)))
      ≡ some (project_of shop (codes "/p/shop") (pos p))
shop-survives p h =
    ap (λ n. some (project_of shop (codes "/p/shop") n)) (atoi-itoa p (omega (arith, h)))

shop-short :
    (p : ℕ)
    → p ≤ max_port
    → length (write_project (project_of shop (codes "/p/shop") (pos p))) ≤ 2 ^ 31 - 2
shop-short p h = omega (arith, h, length-itoa p)

shop-IsStorable : IsStorable list_bolt project_json shop (codes "/p/shop")
shop-IsStorable = record {
  named = λ e. ground arith;
  short_name = omega arith;
  short = shop-short;
  survives = shop-survives;
}

empty-IsPortBucket : IsPortBucket list_bolt empty_bucket
empty-IsPortBucket k v e = cc

unknown : get_project list_bolt project_json (codes "shop") empty_db ≡ err not_found
unfolding get_project
unknown = refl

without_config :
    (add_cmd list_bolt project_json true true none (codes "/p/shop") empty_db).0 ≡ no_config
unfolding add_cmd
without_config = refl

own_port :
    (add_cmd list_bolt project_json true true (some own) (codes "/p/shop") empty_db).0
    ≡ registered (project_of own (codes "/p/shop") (pos 10000))
unfolding add_cmd register_project port_for get_project add_project itoa
own_port = refl

add_cmd_lem_example :
    (p : ℕ) × (mid : Db ListBucket) × (db' : Db ListBucket) × (add_cmd list_bolt project_json true
        true
        (some shop)
        (codes "/p/shop")
        empty_db
      ≡ (registered (project_of shop (codes "/p/shop") (pos p)), db'))
    × Taken list_bolt min_port max_port empty_db p mid
    × (db'.ports ≡ mid.ports)
    × ((name : Bytes)
        → get_project list_bolt project_json name db' ≡ (
            if bytes_beq (codes "shop") name
            then ok (project_of shop (codes "/p/shop") (pos p))
            else get_project list_bolt project_json name empty_db))
add_cmd_lem_example =
    add_cmd_lem list_bolt project_json shop (codes "/p/shop") empty_db not_found 10000
      shop-IsStorable refl unknown empty-IsPortBucket (omega arith) (omega arith) refl

remove_cmd-add_cmd_example :
    (p : ℕ) × (mid : Db ListBucket) × (db' : Db ListBucket) × (add_cmd list_bolt project_json true
        true
        (some shop)
        (codes "/p/shop")
        empty_db
      ≡ (registered (project_of shop (codes "/p/shop") (pos p)), mid))
    × (remove_cmd list_bolt project_json true true (codes "shop") mid ≡ (removed, db'))
    × ((n : ℕ) → is_taken list_bolt db'.ports n ≡ is_taken list_bolt empty_bucket n)
    × ((name : Bytes)
        → get_project list_bolt project_json name db' ≡ (
            if bytes_beq (codes "shop") name
            then err not_found
            else get_project list_bolt project_json name empty_db))
remove_cmd-add_cmd_example =
    remove_cmd-add_cmd list_bolt project_json shop (codes "/p/shop") empty_db not_found 10000
      shop-IsStorable refl unknown empty-IsPortBucket (omega arith) (omega arith) refl

-- A port of its own within the range is handed out once more.
allocate_port-add_cmd_example :
    (allocate_port list_bolt true
      (add_cmd list_bolt project_json true true (some own) (codes "/p/shop") empty_db).1).0
    ≡ (allocate_port list_bolt true empty_db).0
allocate_port-add_cmd_example =
    allocate_port-add_cmd list_bolt project_json own (codes "/p/shop") empty_db true true true
      (λ e. ground arith)

abbrev yaml : Codec ProjectConfig
yaml = record {
  marshal = λ cfg. field cfg.name;
  unmarshal =
      λ text. some (record { name = head_field text; subdomain = []; port = pos 0; env = [] });
}

-- `init`, and what `add` then reads; a second `init` is refused.
initialised :
    load_config yaml ((config_path (codes "/p/shop"), field (codes "shop")) ∷ []) (codes "/p/shop")
    ≡ some shop
unfolding load_config
initialised = refl

inits :
    init_cmd yaml whole [] (codes "/p/shop") (codes "shop")
    ≡ some (true, (config_path (codes "/p/shop"), field (codes "shop")) ∷ [])
unfolding init_cmd save_config
inits = refl

inits_once :
    init_cmd yaml whole ((config_path (codes "/p/shop"), []) ∷ []) (codes "/p/shop") (codes "shop")
    ≡ none
unfolding init_cmd
inits_once = refl
