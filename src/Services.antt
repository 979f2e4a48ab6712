-- ===== src/Services.antt =====
-- app/services/: the operations behind the routes.
pub mod Auth
pub mod Sessions
pub mod Spaces
pub mod Users
pub mod Raises
pub mod Keeps
