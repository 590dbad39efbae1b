-- ===== src/Engine.antt =====
-- internal/engine: the state engine, its outbox publisher and its reaper.
pub mod Build
pub mod Compensation
pub mod Lock
pub mod Start
pub mod Success
pub mod Failure
pub mod Manual
pub mod Outbox
pub mod Consumers
pub mod Loops
pub mod Stable
pub mod Effects
pub mod Reports
pub mod Progress
