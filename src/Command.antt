-- ===== src/Command.antt =====
-- command
pub mod Types
pub mod Common
pub mod Files
pub mod Frame
pub mod Break
pub mod BreakInfo
pub mod Get
pub mod Contract
pub mod Granted
pub mod RoundTrip
pub mod Table
pub mod Attach
pub mod Locations
pub mod Faults
