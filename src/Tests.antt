-- ===== src/Tests.antt =====
-- Runs at concrete inputs, and the witnesses of the theorems.
pub mod Scenario
mod Runs
mod Claims
mod Handlers
mod Reports
pub mod Api
mod Terminal
pub mod Fleet
