-- ===== src/Restic.antt =====
-- The backupper that runs restic: selfprivacy_api/backup/backuppers/restic_backupper.py, with
-- selfprivacy_api/backup/util.py, selfprivacy_api/backup/local_secret.py and
-- selfprivacy_api/utils/waitloop.py.
pub mod Json
pub mod Vault
pub mod Command
pub mod Operations
pub mod Listing
pub mod Upload
pub mod StartBackup
pub mod Download
pub mod Reported
pub mod Snapshots
pub mod Secret
pub mod Sequence
pub mod SecretKept
pub mod SecretSequence
pub mod Entries
mod Tests
pub mod Providers
