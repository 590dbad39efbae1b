-- ===== src/Engine/Stable.antt =====
-- An interface between the handlers and the invariants: what a property of the tables must keep, so
-- that every handler keeps it. `eid` is the execution that the handler works on, and `may` tells
-- the statuses that it writes.
pub mod Writes
pub mod Actions
pub mod Success
pub mod Failure
pub mod Manual
pub mod Start
