-- ===== src/Proxy.antt =====
-- internal/proxy: the routes, and the Caddy configuration that is built from them.
pub mod Route
pub mod L4
pub mod Http
