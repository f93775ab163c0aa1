-- ===== src/Backup.antt =====
-- Backups: rotation of automatic snapshots, the Redis storage, scheduling and the backup jobs
-- (selfprivacy_api/backup).
pub mod Model
pub mod Rotation
pub mod Kept
pub mod Storage
pub mod ServiceJobs
pub mod Schedule
pub mod Slice
pub mod SliceContents
pub mod RestoreOrder
pub mod Run
pub mod Failure
pub mod Restore
pub mod InPlace
pub mod Restored
pub mod Tasks
pub mod FullRestore
pub mod Unattended
mod Tests
mod RestoreTests
