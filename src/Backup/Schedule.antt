-- ===== src/Backup/Schedule.antt =====
-- Automatic backups: when a service is due (`Backups.is_time_to_backup_service` and its callers,
-- selfprivacy_api/backup/__init__.py), and what a backup, a failure or a new period changes.
use selfprivacy_api.Base.{
  ℕ, zero, suc, ◌+◌, ◌*◌, ◌≤◌, ◌≡◌, refl, Bool, true, false, not, Option, none, some, List, [], ◌∷◌,
  arith, ltb, if◌then◌else◌, lookup-insert_self, keep,
}
use selfprivacy_api.Base.Int.{ℤ, pos, negsuc, is_nonpos}
use selfprivacy_api.Backup.Model.{Snapshot}
use selfprivacy_api.Backup.Storage.{
  BackupStore, invalidate_snapshot_storage, get_last_backup_time, store_last_timestamp,
  cache_snapshot, autobackup_period_minutes, store_autobackup_period_minutes, delete_backup_period,
  cache_all, on_new_snapshot_created,
}
use selfprivacy_api.Backup.ServiceJobs.{Service, JobEq, get_backup_fail}
use selfprivacy_api.Jobs.Store.{JobStore}

-- `AUTOBACKUP_JOB_EXPIRATION_SECONDS`
abbrev pub autobackup_job_expiration_seconds : ℕ
autobackup_job_expiration_seconds = 60 * 60

unfoldable pub disable_all_autobackup : BackupStore → BackupStore
unfolding delete_backup_period
disable_all_autobackup s = delete_backup_period s

unfoldable pub set_autobackup_period_minutes : ℤ → BackupStore → BackupStore
unfolding disable_all_autobackup store_autobackup_period_minutes
set_autobackup_period_minutes (pos zero) s = disable_all_autobackup s
set_autobackup_period_minutes (pos (suc n)) s = store_autobackup_period_minutes (suc n) s
set_autobackup_period_minutes (negsuc n) s = disable_all_autobackup s

-- What the scheduler reads: the storage, the jobs, and the machine's offset from UTC.
pub record Server : Type 0 where
  pub storage : BackupStore
  pub jobs : JobStore
  pub job_eq : JobEq
  pub to_utc : ℕ → ℕ

unfoldable pub get_last_backup_error_time : Service → Server → Option ℕ
get_last_backup_error_time service server =
    elim (get_backup_fail server.job_eq service server.jobs) [
      | none ↦ none
      | some j ↦ some (server.to_utc j.created_at)
    ]

-- `last_error is not None and time < last_error + timedelta(seconds=...)`
abbrev pub failed_recently : Option ℕ → ℕ → Bool
failed_recently none time = false
failed_recently (some t) time = ltb time (t + autobackup_job_expiration_seconds)

abbrev pub is_older_than : Option ℕ → ℕ → ℕ → Bool
is_older_than none period time = true
is_older_than (some t) period time = ltb (t + period * 60) time

unfoldable pub is_time_to_backup_service : Service → ℕ → Server → Bool
unfolding autobackup_period_minutes
is_time_to_backup_service service time server = elim (autobackup_period_minutes server.storage) [
  | none ↦ false
  | some period ↦
      if not service.is_enabled
      then false
      else if not service.can_be_backed_up
      then false
      else if failed_recently (get_last_backup_error_time service server) time
      then false
      else is_older_than (get_last_backup_time service.id server.storage) period time
]

unfoldable pub services_to_back_up : List Service → ℕ → Server → List Service
services_to_back_up all_services time server =
    keep (λ s. is_time_to_backup_service s time server) all_services

unfoldable pub is_time_to_backup : List Service → ℕ → Server → Bool
unfolding services_to_back_up
is_time_to_backup all_services time server = elim (services_to_back_up all_services time server) [
  | [] ↦ false
  | _ ∷ _ ↦ true
]

cache_all-last_backups :
    (xs : List Snapshot) (s : BackupStore)
    → ((cache_all xs s).last_backups ≡ s.last_backups) × ((cache_all xs s).period ≡ s.period)
unfolding cache_all
cache_all-last_backups [] s = (refl, refl)
cache_all-last_backups (x ∷ xs) s = cache_all-last_backups xs (cache_snapshot x s)

-- Once a snapshot of a service is recorded, the service is not due again before the period has
-- passed since the snapshot, whatever the repository lists.
pub not_due_after_backup :
    (server : Server) (service : Service) (snap : Snapshot) (upstream : List Snapshot)
    (period time : ℕ)
    → server.storage.period ≡ some period
    → time ≤ snap.created_at + period * 60
    → is_time_to_backup_service service time (record server {
      storage = on_new_snapshot_created upstream service.id snap server.storage;
    })
      ≡ false
unfolding is_time_to_backup_service on_new_snapshot_created get_last_backup_time
not_due_after_backup server service snap upstream period time on early = ground (
  arith,
  cache_all-last_backups upstream
      (invalidate_snapshot_storage (store_last_timestamp service.id snap server.storage)),
  lookup-insert_self service.id snap server.storage.last_backups,
)

services_to_back_up_disabled :
    (all_services : List Service) (time : ℕ) (server : Server)
    → server.storage.period ≡ none
    → services_to_back_up all_services time server ≡ []
unfolding services_to_back_up is_time_to_backup_service
services_to_back_up_disabled [] time server off = refl
services_to_back_up_disabled (s ∷ ss) time server off =
    rw off (services_to_back_up_disabled ss time server off)

set_nonpos-period :
    (minutes : ℤ) (s : BackupStore)
    → is_nonpos minutes ≡ true
    → (set_autobackup_period_minutes minutes s).period ≡ none
unfolding set_autobackup_period_minutes
set_nonpos-period (pos zero) s off = refl
set_nonpos-period (pos (suc n)) s off = ground arith
set_nonpos-period (negsuc n) s off = refl

-- A period of zero or less stops every automatic backup.
pub disabled_backs_up_nothing :
    (minutes : ℤ) (server : Server) (all_services : List Service) (time : ℕ)
    → is_nonpos minutes ≡ true
    → services_to_back_up all_services time
        (record server { storage = set_autobackup_period_minutes minutes server.storage })
      ≡ []
disabled_backs_up_nothing minutes server all_services time off =
    services_to_back_up_disabled all_services time
      (record server { storage = set_autobackup_period_minutes minutes server.storage })
      (set_nonpos-period minutes server.storage off)

-- With a positive period, a service that is enabled, can be backed up, never was and has no
-- failed backup is due at any time.
pub due_when_never_backed_up :
    (n : ℕ) (server : Server) (service : Service) (time : ℕ)
    → service.is_enabled ≡ true
    → service.can_be_backed_up ≡ true
    → get_backup_fail server.job_eq service server.jobs ≡ none
    → get_last_backup_time service.id server.storage ≡ none
    → is_time_to_backup_service service time
        (record server { storage = set_autobackup_period_minutes (pos (suc n)) server.storage })
      ≡ true
unfolding is_time_to_backup_service set_autobackup_period_minutes get_last_backup_error_time
    get_last_backup_time
due_when_never_backed_up n server service time on can ok_ never = ground arith
