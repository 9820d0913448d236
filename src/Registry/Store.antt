-- ===== src/Registry/Store.antt =====
-- internal/registry/store.go: projects, ports and subdomain mappings in a bbolt file. Each method
-- runs under `mu`, so it is one step. `commits` says whether a read-write transaction that asks for
-- it reaches the disk. `notified` says whether the method called `onChange`.
pub mod Ports
pub mod Projects
pub mod Mappings
pub mod ListBolt
mod Tests
use localproxy.Base.{
  suc, ℤ, pos, negsuc, Bytes, codes, ◌++◌, Option, none, some, Bool, if◌then◌else◌, itoa, ◌⊎◌, inl,
  inr, refl, ◌≡◌, arith,
}

pub data Error : Type 0 where
  not_found no_available_ports bad_json put_failed commit_failed : Error

pub data Result {ℓ} (A : Type ℓ) : Type ℓ where
  ok : A → Result A
  err : Error → Result A

infixl 5 ◌>>=◌
abbrev pub ◌>>=◌ {ℓ κ} : {A : Type ℓ} {B : Type κ} → Result A → (A → Result B) → Result B
ok a >>= f = f a
err e >>= f = err e

abbrev pub or_err {ℓ} : {A : Type ℓ} → Error → Option A → Result A
or_err e none = err e
or_err e (some a) = ok a

pub Result-cases {ℓ} :
    {A : Type ℓ} (r : Result A) → ((a : A) × (r ≡ ok a)) ⊎ ((e : Error) × (r ≡ err e))
Result-cases (ok a) = inl (a, refl)
Result-cases (err e) = inr (e, refl)

-- `fmt.Sprintf("%d", n)`
abbrev pub format_int : ℤ → Bytes
format_int (pos n) = itoa n
format_int (negsuc n) = codes "-" ++ itoa (suc n)

-- The buckets of the file, over the type of a bucket. Nothing reads or writes the bucket "meta".
pub record Db (B : Type 0) : Type 0 where
  pub projects : B
  pub ports : B
  pub subdomain_mappings : B

-- `db.Update(fn)`: an error of `fn` rolls back, and a commit may fail.
abbrev pub transact : {A B : Type 0} → Bool → Db B → Result (A × Db B) → Result A × Db B
transact commits db (err e) = (err e, db)
transact commits db (ok (a, db')) = if commits then (ok a, db') else (err commit_failed, db)

pub transact-ok :
    {A B : Type 0} (commits : Bool) (db : Db B) (r : Result (A × Db B)) (a : A) (db' : Db B)
    → transact commits db r ≡ (ok a, db')
    → r ≡ ok (a, db')
transact-ok commits db (err e) a db' h = ground arith
transact-ok commits db (ok (b, db'')) a db' h = ground arith

pub transact-err :
    {A B : Type 0} (commits : Bool) (db : Db B) (r : Result (A × Db B)) (e : Error) (db' : Db B)
    → transact commits db r ≡ (err e, db')
    → db' ≡ db
transact-err commits db (err e') e db' h = ground arith
transact-err commits db (ok (b, db'')) e db' h = ground arith
