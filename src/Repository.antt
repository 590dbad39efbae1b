-- ===== src/Repository.antt =====
-- internal/repository: the statements on each table, and the methods of the two repositories.
pub mod Sql
pub mod ExecutionRepo
pub mod ExecutionQueries
pub mod WorkflowRepo
pub mod ScheduleRepo
pub mod Listings
pub mod UserRepo
