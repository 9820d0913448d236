-- ===== src/Registry/Store/Ports.antt =====
-- internal/registry/store.go: `AllocatePort` and `ReleasePort`.
pub mod Allocation
use localproxy.Base.{
  ℕ, zero, suc, ◌+◌, ◌-◌, ℤ, Bytes, codes, List, [], ◌∷◌, Option, none, some, Bool, true, false,
  if◌then◌else◌, itoa, scan_d, nat_eq,
}
use localproxy.Base.GoMap.{GoMap, lookup, put}
use localproxy.Registry.Bolt.{Bolt}
use localproxy.Registry.Store.{
  Db, Result, ok, err, no_available_ports, put_failed, ◌>>=◌, or_err, format_int, transact,
}

abbrev pub min_port : ℕ
min_port = 10000

abbrev pub max_port : ℕ
max_port = 20000

-- The ports in use, as the cursor loop of `AllocatePort` collects them.
unfoldable pub used_ports : List (Bytes × Bytes) → GoMap ℕ Bool → GoMap ℕ Bool
used_ports [] used = used
used_ports ((k, v) ∷ rest) used = used_ports rest (put (scan_d k) true used)

-- `used[p]`
abbrev pub is_used : GoMap ℕ Bool → ℕ → Bool
is_used used p = elim (lookup p used) [ none ↦ false | some b ↦ b ]

-- The loop over the range, from `p` with `n` rounds to go.
unfoldable pub find_free : ℕ → ℕ → GoMap ℕ Bool → Option ℕ
find_free zero p used = none
find_free (suc n) p used =
    let rest = find_free n (p + 1) used in if is_used used p then rest else some p

module _ (bolt : Bolt) where
  open bolt use {Bucket, put as bucket_put, delete, entries}

  -- The function that `AllocatePort` hands to `db.Update`, over the range from `lo` to `hi`.
  unfoldable pub take_port : ℕ → ℕ → Db Bucket → Result (ℕ × Db Bucket)
  take_port lo hi db = do
    p ← or_err no_available_ports (find_free (hi + 1 - lo) lo (used_ports (entries db.ports) []))
    ports ← or_err put_failed (bucket_put db.ports (itoa p) (codes "1"))
    ok (p, record db { ports = ports })

  unfoldable pub allocate_port : Bool → Db Bucket → Result ℕ × Db Bucket
  allocate_port commits db = transact commits db (take_port min_port max_port db)

  pub release_port : Bool → ℤ → Db Bucket → Result (Unit {0}) × Db Bucket
  release_port commits port db =
      transact commits db (ok (tt, record db { ports = delete db.ports (format_int port) }))
