-- ===== src/Commands/Added.antt =====
-- What `localproxy add` registers.
use localproxy.Base.{
  ℕ, ℤ, pos, ◌+◌, ◌-◌, ◌^◌, ◌≤◌, ◌≡◌, ◌≢◌, refl, sym, ap, ◌∙◌, Bytes, [], length, none, some, Bool,
  true, false, if◌then◌else◌, int_beq, int_beq_iff, bytes_beq, Option-cases, Bool-cases, inl, inr,
  itoa, codes, arith,
}
use localproxy.Config.{ProjectConfig}
use localproxy.Registry.Bolt.{Bolt, Codec}
use localproxy.Registry.Mapping.{Project}
use localproxy.Registry.Store.{
  Db, Result, ok, err, Error, Result-cases, put_failed, commit_failed, not_found, bad_json,
  no_available_ports, ◌>>=◌, or_err,
}
use localproxy.Registry.Store.Ports.{
  min_port, max_port, allocate_port, take_port, find_free, used_ports,
}
use localproxy.Registry.Store.Ports.Allocation.{
  IsPortBucket, is_taken, Taken, allocate_port-Taken, allocate_port_total,
}
use localproxy.Registry.Store.Projects.{add_project, get_project}
use localproxy.Registry.Store.Projects.Laws.{get-add_project}
use localproxy.Commands.{registered, project_of, port_for, register_project, add_cmd}

module _ (bolt : Bolt) (json : Codec Project) where
  open bolt use {Bucket, get, put as bucket_put, put_accepts, entries}
  open json use {marshal, unmarshal}

  -- A project that the file can hold: its name is a key, and its encoding is a value that is read back, at
  -- every port that can be allocated.
  pub record IsStorable (cfg : ProjectConfig) (dir : Bytes) : Type 0 where
    pub named : cfg.name ≢ []
    pub short_name : length cfg.name ≤ 32768
    pub short : (p : ℕ) → p ≤ max_port → length (marshal (project_of cfg dir (pos p))) ≤ 2 ^ 31 - 2
    pub survives :
        (p : ℕ)
        → p ≤ max_port
        → unmarshal (marshal (project_of cfg dir (pos p))) ≡ some (project_of cfg dir (pos p))

  -- To add a storable project under a port of the range succeeds where the transaction commits.
  add_project_total :
      (cfg : ProjectConfig) (dir : Bytes) (p : ℕ) (db : Db Bucket)
      → p ≤ max_port
      → IsStorable cfg dir
      → (c : Bucket) × ((add_project bolt json true (project_of cfg dir (pos p)) db).result ≡ ok tt)
        × ((add_project bolt json true (project_of cfg dir (pos p)) db).db
            ≡ record db { projects = c })
  unfolding add_project
  add_project_total cfg dir p db high s =
      let (c, e) =
        put_accepts db.projects cfg.name (marshal (project_of cfg dir (pos p))) s.named s.short_name
          (s.short p high) in
      (c, rw e refl, rw e refl)

  -- `GetProject` reads the projects only.
  get_project-projects :
      (name : Bytes) (a b : Db Bucket)
      → a.projects ≡ b.projects
      → get_project bolt json name a ≡ get_project bolt json name b
  unfolding get_project
  get_project-projects name a b same =
      ap (λ c. or_err not_found (get c name) >>= λ text. or_err bad_json (unmarshal text)) same

  add_cmd-registered :
      (cfg : ProjectConfig) (dir : Bytes) (db : Db Bucket) (e : Error) (port : ℤ) (mid : Db Bucket)
      → get_project bolt json cfg.name db ≡ err e
      → port_for bolt json true cfg db ≡ (ok port, mid)
      → (add_project bolt json true (project_of cfg dir port) mid).result ≡ ok tt
      → add_cmd bolt json true true (some cfg) dir db ≡ (
        registered (project_of cfg dir port),
        (add_project bolt json true (project_of cfg dir port) mid).db,
      )
  unfolding add_cmd register_project
  add_cmd-registered cfg dir db e port mid unknown port_eq done =
      rw (add_cmd, unknown, port_eq) (rw (register_project, done) refl)

  -- A project without a port of its own, whose name is not known, and that the file can hold at every port of
  -- the range, is registered if some port of the range is not recorded, every key of the bucket of ports is a
  -- decimal as the program prints it, and the transactions commit: at the least such port, which is recorded
  -- then besides those that were; its name answers with it, and every other name as before.
  pub add_cmd_lem :
      (cfg : ProjectConfig) (dir : Bytes) (db : Db Bucket) (e : Error) (q : ℕ)
      → IsStorable cfg dir
      → cfg.port ≡ pos 0
      → get_project bolt json cfg.name db ≡ err e
      → IsPortBucket bolt db.ports
      → min_port ≤ q
      → q ≤ max_port
      → is_taken bolt db.ports q ≡ false
      → (p : ℕ) × (mid : Db Bucket) × (db' : Db Bucket) × (add_cmd bolt json true true
            (some cfg)
            dir
            db
          ≡ (registered (project_of cfg dir (pos p)), db'))
        × Taken bolt min_port max_port db p mid
        × (db'.ports ≡ mid.ports)
        × ((name : Bytes)
            → get_project bolt json name db' ≡ (
                if bytes_beq cfg.name name
                then ok (project_of cfg dir (pos p))
                else get_project bolt json name db))
  unfolding add_cmd port_for
  add_cmd_lem cfg dir db e q s own unknown decimal low high free =
      let (p, mid, taken) = allocate_port_total bolt db q decimal low high free in
      let recorded = allocate_port-Taken bolt true db p mid decimal taken in
      let (c, done, left) = add_project_total cfg dir p mid recorded.high s in
      let pr = project_of cfg dir (pos p) in
      let own_port : int_beq cfg.port (pos 0) ≡ true = rw own refl in
      let port_eq : port_for bolt json true cfg db ≡ (ok (pos p), mid) =
        rw (port_for, own_port, taken) refl in
      (
        p,
        mid,
        (add_project bolt json true pr mid).db,
        add_cmd-registered cfg dir db e (pos p) mid unknown port_eq done,
        recorded,
        rw left refl,
        λ name. ground (
          arith,
          get-add_project bolt json true pr mid name (s.survives p recorded.high),
          done,
          get_project-projects name mid db recorded.projects_kept,
        ),
      )

  ports-add_project :
      (commits : Bool) (p : Project) (db : Db Bucket)
      → (add_project bolt json commits p db).db.ports ≡ db.ports
  unfolding add_project
  ports-add_project commits p db = elim (Option-cases (bucket_put db.projects p.name (marshal p))) [
    | inl refused ↦ ground arith
    | inr (c, e) ↦ ground arith
  ]

  -- What `AllocatePort` answers, from the recorded ports.
  abbrev answer : Bool → Bucket → Result ℕ
  answer commits ports =
      elim (find_free (max_port + 1 - min_port) min_port (used_ports (entries ports) [])) [
        | none ↦ err no_available_ports
        | some n ↦ elim (bucket_put ports (itoa n) (codes "1")) [
          | none ↦ err put_failed
          | some _ ↦ if commits then ok n else err commit_failed
        ]
      ]

  allocate_port-answer :
      (commits : Bool) (db : Db Bucket)
      → (allocate_port bolt commits db).0 ≡ answer commits db.ports
  unfolding allocate_port take_port
  allocate_port-answer commits db =
      elim (Option-cases
        (find_free (max_port + 1 - min_port) min_port (used_ports (entries db.ports) []))) [
          | inl full ↦ rw (answer, full) refl
          | inr (n, e) ↦ elim (Option-cases (bucket_put db.ports (itoa n) (codes "1"))) [
            | inl refused ↦ rw (answer, e, refused) refl
            | inr (c, f) ↦
                rw (answer, e, f)
                  (elim (Bool-cases commits) [
                    | inl reached ↦ rw reached refl
                    | inr lost ↦ rw lost refl
                  ])
          ]
        ]

  allocate_port-ports :
      (commits : Bool) (a b : Db Bucket)
      → a.ports ≡ b.ports
      → (allocate_port bolt commits a).0 ≡ (allocate_port bolt commits b).0
  allocate_port-ports commits a b same =
      allocate_port-answer commits a
      ∙ ap (answer commits) same
      ∙ sym (allocate_port-answer commits b)

  ports-add_cmd :
      (cfg : ProjectConfig) (dir : Bytes) (db : Db Bucket) (commits_port commits : Bool)
      → cfg.port ≢ pos 0
      → (add_cmd bolt json commits_port commits (some cfg) dir db).1.ports ≡ db.ports
  unfolding add_cmd port_for register_project
  ports-add_cmd cfg dir db commits_port commits own =
      let own_port : int_beq cfg.port (pos 0) ≡ false =
        ground (arith, int_beq_iff cfg.port (pos 0)) in
      let port_eq : port_for bolt json commits_port cfg db ≡ (ok cfg.port, db) =
        rw (port_for, own_port) refl in
      let p = project_of cfg dir cfg.port in
      let kept = ports-add_project commits p db in
      elim (Result-cases (get_project bolt json cfg.name db)) [
        | inl (existing, e) ↦ rw (add_cmd, e) refl
        | inr (x, e) ↦ elim (Result-cases (add_project bolt json commits p db).result) [
          | inl (u, f) ↦ rw (add_cmd, e, port_eq) (rw (register_project, f) kept)
          | inr (y, f) ↦ rw (add_cmd, e, port_eq) (rw (register_project, f) kept)
        ]
      ]

  -- To add a project with a port of its own leaves the recorded ports alone: the next `AllocatePort` returns
  -- what it would have returned before, be it that very port.
  pub allocate_port-add_cmd :
      (cfg : ProjectConfig) (dir : Bytes) (db : Db Bucket) (commits_port commits next : Bool)
      → cfg.port ≢ pos 0
      → (allocate_port bolt next (add_cmd bolt json commits_port commits (some cfg) dir db).1).0
        ≡ (allocate_port bolt next db).0
  allocate_port-add_cmd cfg dir db commits_port commits next own =
      allocate_port-ports next (add_cmd bolt json commits_port commits (some cfg) dir db).1 db
        (ports-add_cmd cfg dir db commits_port commits own)
