-- ===== src/Registry/Bolt.antt =====
-- What internal/registry/store.go relies on outside the repository: go.etcd.io/bbolt and the
-- encoding of a record by encoding/json.
use localproxy.Base.{
  ◌-◌, ◌^◌, ◌≤◌, ◌≡◌, ◌≢◌, Bytes, List, [], Option, none, some, length, if◌then◌else◌, bytes_beq,
  bytes_eq,
}
use localproxy.Base.GoMap.{lookup, HasUniqueKeys}

-- The buckets of bbolt: `put` is `none` where `Bucket.Put` returns an error, and `entries` are the
-- pairs in the order of a cursor. The laws are the documented ones; a key or a value within
-- `MaxKeySize` and `MaxValueSize` is accepted if the key is not empty.
pub record Bolt : Type 1 where
  pub Bucket : Type 0
  pub get : Bucket → Bytes → Option Bytes
  pub put : Bucket → Bytes → Bytes → Option Bucket
  pub delete : Bucket → Bytes → Bucket
  pub entries : Bucket → List (Bytes × Bytes)
  pub get-put :
      (b : Bucket) (k v : Bytes) (c : Bucket) (j : Bytes)
      → put b k v ≡ some c
      → get c j ≡ (if bytes_beq k j then some v else get b j)
  pub get-delete :
      (b : Bucket) (k j : Bytes) → get (delete b k) j ≡ (if bytes_beq k j then none else get b j)
  pub lookup-entries : (b : Bucket) (k : Bytes) → lookup k (entries b) ≡ get b k
  pub entries_unique : (b : Bucket) → HasUniqueKeys (entries b)
  pub put_accepts :
      (b : Bucket) (k v : Bytes)
      → k ≢ []
      → length k ≤ 32768
      → length v ≤ 2 ^ 31 - 2
      → (c : Bucket) × (put b k v ≡ some c)

-- `json.Marshal` and `json.Unmarshal` at one record type. Marshalling such a record never fails;
-- where a theorem needs a record to survive the round trip, that is a hypothesis about the record,
-- since a string that is not UTF-8 does not.
pub record Codec (A : Type 0) : Type 0 where
  pub marshal : A → Bytes
  pub unmarshal : Bytes → Option A
