-- ===== src/Daemon.antt =====
-- cmd/localproxyd/caddy_daemon.go: how the daemon composes the parts.
pub mod Packets
pub mod Events
pub mod Routes
