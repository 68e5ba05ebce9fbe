-- ===== src/Database.antt =====
-- Errors, and the unit of work through which every service reads and writes the database.
pub mod UnitOfWork
pub mod Runs
