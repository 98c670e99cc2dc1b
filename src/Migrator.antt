-- ===== src/Migrator.antt =====
-- The migrator: app/migrator.
pub mod Values
pub mod Quoting
pub mod Server
pub mod Databases
pub mod Roles
pub mod Config
pub mod Service
mod Tests
