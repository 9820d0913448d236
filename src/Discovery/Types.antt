-- ===== src/Discovery/Types.antt =====
-- internal/discovery/types.go and the `ServiceInfo` of fingerprint.go.
use localproxy.Base.{
  ℕ, ℤ, Bytes, Bool, true, false, List, Option, ◌≡◌, ◌↔◌, bytes_beq, bytes_beq_iff, nat_beq,
  if◌then◌else◌, arith,
}
use localproxy.Net.{AddrPort}

-- `RouteSource` is a string type: its three constants, and any other string.
pub data RouteSource : Type 0 where
  from_process from_docker from_well_known : RouteSource
  from_other : Bytes → RouteSource

abbrev pub source_beq : RouteSource → RouteSource → Bool
source_beq from_process from_process = true
source_beq from_docker from_docker = true
source_beq from_well_known from_well_known = true
source_beq (from_other a) (from_other b) = bytes_beq a b
source_beq _ _ = false

pub source_beq_iff : (a b : RouteSource) → (source_beq a b ≡ true) ↔ (a ≡ b)
source_beq_iff (from_other a) (from_other b) = ground (arith, bytes_beq_iff a b)
source_beq_iff a b = ground arith

pub record ServiceInfo : Type 0 where
  pub endpoint : AddrPort
  pub protocol : Bytes
  pub version : Bytes

-- `PID` is the name of a directory of /proc, so it is not negative.
pub record ProcessInfo : Type 0 where
  pub pid : ℕ
  pub cwd : Bytes
  pub disabled : Bool
  pub needs_custom_mapping : Bool
  pub is_well_known : Bool
  pub top_level_folder : Bytes
  pub relative_path : Bytes

pub record DockerListener : Type 0 where
  pub endpoint : AddrPort
  pub private_port : ℕ
  pub kind : Bytes  -- the field `Type`
  pub service_protocol : Bytes

pub record DockerInfo : Type 0 where
  pub id : Bytes
  pub name : Bytes
  pub has_custom_name : Bool
  pub ports : List DockerListener

pub record FolderInfo : Type 0 where
  pub path : Bytes
  pub name : Bytes

-- `process` and `docker` are pointers to objects that several copies of a service share, so they are
-- addresses on the heap. The objects behind `folder` and `service` are never written.
pub record DiscoveredService : Type 0 where
  pub subdomain : Bytes
  pub endpoint : AddrPort
  pub tcp_port : ℤ
  pub source : RouteSource
  pub process : Option ℕ
  pub docker : Option ℕ
  pub folder : Option FolderInfo
  pub service : Option ServiceInfo

-- The shared objects by their addresses.
pub record Heap : Type 0 where
  pub process_at : ℕ → ProcessInfo
  pub docker_at : ℕ → DockerInfo

abbrev pub set_process : Heap → ℕ → ProcessInfo → Heap
set_process h a p = record h { process_at = λ b. if nat_beq a b then p else h.process_at b }

abbrev pub set_docker : Heap → ℕ → DockerInfo → Heap
set_docker h a d = record h { docker_at = λ b. if nat_beq a b then d else h.docker_at b }

-- The objects behind pointers, and the first address that is free.
pub record Objects : Type 0 where
  pub heap : Heap
  pub next : ℕ
