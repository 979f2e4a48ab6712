-- ===== src/Interleave.antt =====
-- Requests in flight at once: app/main.py serves each in a task, and tasks change places wherever one
-- awaits the database.
pub mod Prog
pub mod Programs
pub mod Exec
pub mod Server
pub mod Alone
pub mod Schedule
pub mod Ensures
pub mod Logout
pub mod Ends
