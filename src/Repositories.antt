-- ===== src/Repositories.antt =====
-- app/repositories/: the SQL statements of each repository, with the constraints of the tables.
pub mod Users
pub mod Like
pub mod Sessions
pub mod Spaces
pub mod WellFormed
pub mod Limits
