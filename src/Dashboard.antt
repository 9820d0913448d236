-- ===== src/Dashboard.antt =====
-- internal/dashboard: the backends shown, and the log buffers behind them.
pub mod Backend
pub mod LogBuffer
pub mod LogManager
pub mod Packets
pub mod Http
pub mod Detail
pub mod Mappings
pub mod Overview
pub mod Portal
pub mod Logs
