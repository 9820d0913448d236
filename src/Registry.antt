-- ===== src/Registry.antt =====
-- internal/registry: the persistent store and the table of routes.
pub mod Mapping
pub mod Bolt
pub mod Store
pub mod Routes
pub mod Listing
