-- ===== src/Binds.antt =====
-- The move of the data of the old services to bind mounts: selfprivacy_api/jobs/migrate_to_binds.py.
pub mod Config
pub mod Folder
pub mod Migrate
pub mod Kept
pub mod Checks
pub mod Final
pub mod Ends
mod Tests
