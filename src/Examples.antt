-- ===== src/Examples.antt =====
-- The example machines (examples/).
pub mod Motor
pub mod AlarmPanel
pub mod SelfTest
pub mod CentrifugeTest
pub mod Table
pub mod Player
pub mod TcpConnection
