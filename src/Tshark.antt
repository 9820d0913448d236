-- ===== src/Tshark.antt =====
-- pkg/tshark: captured packets, their buffer, and the subscriptions of a capture.
pub mod Json
pub mod Tcp
pub mod PgSql
pub mod Packet
pub mod Parse
pub mod Buffer
pub mod Capture
pub mod Run
mod Tests
