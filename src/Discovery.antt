-- ===== src/Discovery.antt =====
-- internal/discovery: the services that the watchers find, and how they find them.
pub mod Types
pub mod WellKnown
pub mod Process
pub mod Probing
pub mod ProcNet
pub mod Watcher
pub mod Docker
