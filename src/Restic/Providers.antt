-- ===== src/Restic/Providers.antt =====
-- The providers of backups and their backuppers: selfprivacy_api/backup/providers/ and
-- selfprivacy_api/backup/backuppers/none_backupper.py.
use selfprivacy_api.Restic.Command.{ResticBackupper, new_backupper, set_creds}
use selfprivacy_api.Base.{String}

-- `BackupProvider`, imported under this name
pub data BackupProviderEnum : Type 0 where
  backblaze no_backups memory file : BackupProviderEnum

-- A class of `PROVIDER_MAPPING` is known by its backupper: restic or the one that does nothing.
pub data Backupper : Type 0 where
  none_backupper : Backupper
  restic : ResticBackupper → Backupper

-- `get_provider`, with the backuppers that the classes are made with. Every value of the enum has
-- a class, so the `LookupError` is never raised.
unfoldable pub get_provider : BackupProviderEnum → Backupper
unfolding new_backupper
get_provider backblaze = restic (new_backupper "--b2-account" "--b2-key" ":b2:")
get_provider memory = restic (new_backupper "" "" ":memory:")
get_provider file = restic (new_backupper "" "" ":local:")
get_provider no_backups = none_backupper

-- `get_kind`
unfoldable pub get_kind : BackupProviderEnum → String
get_kind backblaze = "BACKBLAZE"
get_kind no_backups = "NONE"
get_kind memory = "MEMORY"
get_kind file = "FILE"

-- `AbstractBackupProvider.__init__`: `set_creds` of the backupper with the location as repository
unfoldable pub new_provider : BackupProviderEnum → (login key location : String) → Backupper
unfolding get_provider set_creds
new_provider kind login key location = elim (get_provider kind) [
  | none_backupper ↦ none_backupper
  | restic p ↦ restic (set_creds login key location p)
]
