-- ===== src/Commands/Removed.antt =====
-- What `localproxy remove` takes back.
use localproxy.Base.{
  ℕ, pos, ◌≤◌, ◌≡◌, refl, Bytes, some, true, false, if◌then◌else◌, bytes_beq, bytes_beq_iff,
  bytes_eq, itoa, itoa-injective, nat_beq_iff, Option-cases, inl, inr, arith,
}
use localproxy.Config.{ProjectConfig}
use localproxy.Registry.Bolt.{Bolt, Codec}
use localproxy.Registry.Mapping.{Project}
use localproxy.Registry.Store.{Db, ok, err, Error, not_found}
use localproxy.Registry.Store.Ports.{min_port, max_port}
use localproxy.Registry.Store.Ports.Allocation.{IsPortBucket, is_taken}
use localproxy.Registry.Store.Projects.{remove_project, get_project, stored_port}
use localproxy.Registry.Store.Projects.Laws.{get-remove_project}
use localproxy.Commands.{registered, removed, project_of, add_cmd, remove_cmd}
use localproxy.Commands.Added.{IsStorable, add_cmd_lem}

module _ (bolt : Bolt) (json : Codec Project) where
  open bolt use {Bucket, get}
  open json use {marshal, unmarshal}

  stored_port-get_project :
      (name : Bytes) (db : Db Bucket) (p : Project)
      → get_project bolt json name db ≡ ok p
      → stored_port bolt json db name ≡ p.port
  unfolding get_project
  stored_port-get_project name db p e = elim (Option-cases (get db.projects name)) [
    | inl f ↦ ground arith
    | inr (text, f) ↦ elim (Option-cases (unmarshal text)) [
      | inl g ↦ ground arith
      | inr (q, g) ↦ ground arith
    ]
  ]

  -- Under the conditions of `add_cmd_lem`, to remove the project that was just added under a new port succeeds
  -- where the transactions commit: no port is recorded that was not before, and none is missing; its name is
  -- unknown, and every other answers as before.
  pub remove_cmd-add_cmd :
      (cfg : ProjectConfig) (dir : Bytes) (db : Db Bucket) (e : Error) (q : ℕ)
      → IsStorable bolt json cfg dir
      → cfg.port ≡ pos 0
      → get_project bolt json cfg.name db ≡ err e
      → IsPortBucket bolt db.ports
      → min_port ≤ q
      → q ≤ max_port
      → is_taken bolt db.ports q ≡ false
      → (p : ℕ) × (mid : Db Bucket) × (db' : Db Bucket) × (add_cmd bolt json true true
            (some cfg)
            dir
            db
          ≡ (registered (project_of cfg dir (pos p)), mid))
        × (remove_cmd bolt json true true cfg.name mid ≡ (removed, db'))
        × ((n : ℕ) → is_taken bolt db'.ports n ≡ is_taken bolt db.ports n)
        × ((name : Bytes)
            → get_project bolt json name db'
              ≡ (if bytes_beq cfg.name name then err not_found else get_project bolt json name db))
  unfolding remove_cmd
  remove_cmd-add_cmd cfg dir db e q s own unknown decimal low high free =
      let (p, at, mid, added, taken, ports, known) =
        add_cmd_lem bolt json cfg dir db e q s own unknown decimal low high free in
      let gone = get-remove_project bolt json true cfg.name mid in
      let stored : stored_port bolt json mid cfg.name ≡ pos p =
        stored_port-get_project cfg.name mid (project_of cfg dir (pos p))
          (ground (arith, known cfg.name, bytes_beq_iff cfg.name cfg.name)) in
      (
        p,
        mid,
        (remove_project bolt json true true cfg.name mid).db,
        added,
        rw (remove_cmd, (gone cfg.name cfg.name).0) refl,
        λ n. ground (
          arith,
          gone cfg.name (itoa n),
          stored,
          ports,
          taken.recorded n,
          taken.free,
          taken.low,
          bytes_beq_iff (itoa p) (itoa n),
          itoa-injective p n,
          nat_beq_iff p n,
        ),
        λ name. ground (arith, gone name name, known name),
      )
