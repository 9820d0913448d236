-- ===== src/Registry/Mapping.antt =====
-- The records that internal/registry/store.go persists.
use localproxy.Base.{ℤ, Bytes}

pub record SubdomainMapping : Type 0 where
  pub folder_group : Bytes
  pub subdomain : Bytes
  pub cwd : Bytes

pub record Project : Type 0 where
  pub name : Bytes
  pub subdomain : Bytes
  pub port : ℤ
  pub path : Bytes
  pub source : Bytes
  pub container : Bytes
