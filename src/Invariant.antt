-- ===== src/Invariant.antt =====
-- What holds of the tables and of the published messages in every reachable state.
pub mod Inversion
pub mod Consistent
pub mod Dispatched
pub mod Holds
pub mod Publisher
pub mod Deletes
pub mod Definitions
pub mod Loops
pub mod System
pub mod EndToEnd
