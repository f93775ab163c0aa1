-- ===== src/Backup/Run.antt =====
-- One backup: `Backups.back_up` and what it calls (selfprivacy_api/backup/__init__.py). The
-- backupper of the provider and the hooks of the services are a parameter: they act on a remote
-- state of any type, on the server and on the job.
use selfprivacy_api.Base.{
  ℕ, String, not, none, some, List, [], ◌∷◌, map, if◌then◌else◌, ok, err, Action, pure, gets,
  modify, raise_if, ◌>>=◌, ◌>>◌,
}
use selfprivacy_api.Backup.Model.{BackupReason, explicit, auto, pre_restore, reason_eq, Snapshot}
use selfprivacy_api.Backup.Rotation.{Calendar, deletable_snaps}
use selfprivacy_api.Backup.Storage.{
  BackupStore, store_last_timestamp, force_snapshot_cache_reload, autobackup_quotas, auto_snaps,
  get_cached_snapshot_by_id,
}
use selfprivacy_api.Backup.ServiceJobs.{
  Service, value_error, get_backup_job, get_backup_fails, add_backup_job,
}
use selfprivacy_api.Backup.Schedule.{Server, autobackup_job_expiration_seconds}
use selfprivacy_api.Jobs.Model.{running, finished, error, Job, Update, update_of}
use selfprivacy_api.Jobs.Store.{JobStore, update, set_expiration, remove_all}

-- The local variable `job`, the server and the remote.
pub record World (R : Type 0) : Type 0 where
  pub job : Job
  pub server : Server
  pub remote : R

-- A method that may raise an exception with a text.
abbrev pub Run : Type 0 → Type 0 → Type 0
Run R A = Action (World R) String A

-- `clock n` is the n-th reading of the clock, `uid` the id of a new job.
pub record Worker (R : Type 0) : Type 0 where
  pub calendar : Calendar
  pub clock : ℕ → ℕ
  pub uid : String
  pub pre_backup : Service → Run R (Unit {0})
  pub post_backup : Service → Run R (Unit {0})
  pub start_backup : Service → BackupReason → Run R Snapshot
  pub list_snapshots : Action R String (List Snapshot)
  pub forget_ids : List String → Action R String (Unit {0})

-- What the errors of `add_backup_job` and of the date syncing read.
abbrev pub another_runs : String
another_runs = "Cannot start a backup, another operation is running"

abbrev pub syncing_failed : String
syncing_failed = "snapshot date syncing failed, this should never happen normally"

abbrev pub uploading : Update
uploading = record (update_of running) { status_text = some "Uploading backup" }

abbrev pub failed_with : String → Update
failed_with e = record (update_of error) { error_text = some e }

abbrev pub done_update : Update
done_update = record (update_of finished) { result = some "Backup finished" }

module _ {R : Type 0} where
  abbrev pub set_storage : BackupStore → World R → World R
  set_storage st w = record w { server = record w.server { storage = st } }

  abbrev pub set_jobs : JobStore → World R → World R
  set_jobs js w = record w { server = record w.server { jobs = js } }

  -- A call on the remote alone.
  abbrev pub on_remote : {A : Type 0} → Action R String A → Run R A
  on_remote m w = let (r, remote') = m w.remote in (r, record w { remote = remote' })

  -- `Jobs.update(job, ...)`
  unfoldable pub update_job : ℕ → Update → World R → World R
  update_job now u w =
      let (j, js) = update now u w.job w.server.jobs in record (set_jobs js w) { job = j }

  -- `force_snapshot_cache_reload`: nothing is dropped if the listing raises.
  unfoldable pub reload_cache : Worker R → Run R (Unit {0})
  reload_cache b = do
    upstream ← on_remote b.list_snapshots
    modify (λ w. set_storage (force_snapshot_cache_reload upstream w.server.storage) w)

  -- `_on_new_snapshot_created`
  unfoldable pub record_snapshot : Worker R → String → Snapshot → Run R (Unit {0})
  unfolding reload_cache
  record_snapshot b service_id snap = do
    modify (λ w. set_storage (store_last_timestamp service_id snap w.server.storage) w)
    reload_cache b

  -- `forget_snapshots`
  unfoldable pub forget : Worker R → List Snapshot → Run R (Unit {0})
  unfolding reload_cache
  forget b [] = pure tt
  forget b (x ∷ xs) = do
    on_remote (b.forget_ids (map (λ (y : Snapshot). y.id) (x ∷ xs)))
    reload_cache b

  -- `_prune_auto_snaps`
  unfoldable pub prune_auto_snaps : Worker R → Service → Run R (Unit {0})
  unfolding forget
  prune_auto_snaps b service = do
    st ← gets (λ w. w.server.storage)
    forget b (deletable_snaps b.calendar (autobackup_quotas st) (auto_snaps service.id st))

  unfoldable pub clear_failed_backups : Service → World R → World R
  clear_failed_backups service w =
      set_jobs (remove_all (get_backup_fails w.server.job_eq service w.server.jobs) w.server.jobs) w

  unfoldable pub sync_date_from_cache : Snapshot → Run R Snapshot
  sync_date_from_cache snap w = elim (get_cached_snapshot_by_id snap.id w.server.storage) [
    | none ↦ (err syncing_failed, w)
    | some cached ↦ (ok cached, w)
  ]

  -- The block under `try`.
  unfoldable pub attempt : Worker R → Service → BackupReason → Run R Snapshot
  unfolding update_job record_snapshot prune_auto_snaps
  attempt b service reason = do
    raise_if (not service.can_be_backed_up) "cannot backup a non-backuppable service"
    b.pre_backup service
    modify (update_job (b.clock 2) uploading)
    snap ← b.start_backup service reason
    record_snapshot b service.id snap
    if reason_eq reason auto then prune_auto_snaps b service else pure tt
    b.post_backup service
    pure snap

  abbrev pub expire_job : ℕ → World R → World R
  expire_job seconds w = set_jobs (set_expiration w.job seconds w.server.jobs).1 w

  -- What follows the block when nothing was raised.
  unfoldable pub conclude : Worker R → Service → BackupReason → Snapshot → Run R Snapshot
  unfolding update_job clear_failed_backups sync_date_from_cache
  conclude b service reason snap = do
    modify (update_job (b.clock 3) done_update)
    if reason_eq reason explicit
        then pure tt
        else modify (expire_job autobackup_job_expiration_seconds)
    if reason_eq reason pre_restore then pure tt else modify (clear_failed_backups service)
    sync_date_from_cache snap

  -- From the job on.
  unfoldable pub back_up_with : Worker R → Service → BackupReason → Run R Snapshot
  unfolding update_job attempt conclude
  back_up_with b service reason w =
      let (r, w') = attempt b service reason (update_job (b.clock 1) (update_of running) w) in
      elim r [
        | ok snap ↦ conclude b service reason snap w'
        | err e ↦ (err e, update_job (b.clock 3) (failed_with e) w')
      ]

  unfoldable pub back_up : Worker R → Service → BackupReason → Run R Snapshot
  unfolding back_up_with
  back_up b service reason w = elim (get_backup_job w.server.job_eq service w.server.jobs) [
    | some j ↦ back_up_with b service reason (record w { job = j })
    | none ↦
        let (r, js) = add_backup_job b.uid (b.clock 0) service w.server.jobs in
        elim r [
          | err value_error ↦ (err another_runs, w)
          | ok j ↦ back_up_with b service reason (record (set_jobs js w) { job = j })
        ]
  ]
