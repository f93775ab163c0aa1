-- ===== src/Backup/InPlace.antt =====
-- `restore_snapshot` of selfprivacy_api/backup/__init__.py: the block around the stopped service,
-- the restore in place with its failsafe snapshot, and the job.
use Prim.Native.String.{◌++◌ as str_append}
use selfprivacy_api.Base.{
  String, true, false, not, ◌&&◌, some, if◌then◌else◌, Result, ok, err, pure, raise, modify, ◌>>=◌,
  ◌>>◌,
}
use selfprivacy_api.Backup.Model.{pre_restore, Snapshot}
use selfprivacy_api.Backup.ServiceJobs.{Service}
use selfprivacy_api.Backup.Run.{World, Run, on_remote, update_job, back_up}
use selfprivacy_api.Backup.Restore.{
  ServiceStatus, RestoreStrategy, inplace, download_verify_overwrite, Restorer, no_such_service,
  is_stopped, was_up, status_text, waiting, from_option, ensure_queued_restore_job,
  assert_restorable, assert_dead, restore_service_from_snapshot,
}
use selfprivacy_api.Jobs.Model.{created, running, finished, error, Update, update_of}

abbrev pub stop_timeout : String
stop_timeout = "timed out waiting for the service to stop"

abbrev pub start_timeout : String
start_timeout = "timed out waiting for the service to start"

abbrev pub restoring : Snapshot → Update
restoring snap = status_text running (str_append "Restoring from " snap.id)

abbrev pub reverting : String → Snapshot → Update
reverting e failsafe =
    status_text error
      (str_append "Restore failed with " (str_append e (str_append ", reverting to " failsafe.id)))

abbrev pub reverted : String → Snapshot → Update
reverted e failsafe =
    status_text error
      (str_append "Restore failed with " (str_append e (str_append ", reverted to " failsafe.id)))

abbrev pub restarting : Update
restarting = record (status_text running "Restarting the service") { progress = some 90 }

module _ {R : Type 0} where
  -- `StoppedService.__aenter__`, with the status it found
  unfoldable pub stop_service : Restorer R → Service → Run R ServiceStatus
  stop_service b service = do
    status ← on_remote (b.get_status service)
    if not (is_stopped status) && not (b.is_always_active service)
        then waiting stop_timeout (b.stop service)
        else pure tt
    pure status

  -- `StoppedService.__aexit__`
  unfoldable pub restart_service : Restorer R → Service → ServiceStatus → Run R (Unit {0})
  restart_service b service original_status =
      if was_up original_status && not (b.is_always_active service)
      then waiting start_timeout (b.start service)
      else pure tt

  -- The exit runs in any case; what it raises takes the place of what the block raised.
  abbrev pub exit_after :
      Run R (Unit {0}) → Result String (Unit {0}) × World R → Result String (Unit {0}) × World R
  exit_after exit (r, w) = let (left, w') = exit w in (elim left [ err e ↦ err e | ok _ ↦ r ], w')

  unfoldable pub with_stopped_service : Restorer R → Service → Run R (Unit {0}) → Run R (Unit {0})
  unfolding stop_service restart_service
  with_stopped_service b service block = do
    original_status ← stop_service b service
    λ w. exit_after (restart_service b service original_status) (block w)

  -- Another job of the same service has its own variable.
  abbrev pub keep_job : {A : Type 0} → Run R A → Run R A
  keep_job m w = let (r, w') = m w in (r, record w' { job = w.job })

  abbrev pub revert :
      Restorer R
      → Service
      → Snapshot
      → Result String (Unit {0}) × World R
      → Result String (Unit {0}) × World R
  revert b service failsafe (ok u, w) = (ok tt, w)
  revert b service failsafe (err e, w) =
      (do
        modify (update_job (b.clock 5) (reverting e failsafe))
        restore_service_from_snapshot b service failsafe.id false
        modify (update_job (b.clock 6) (reverted e failsafe))
        raise e)
        w

  -- `_inplace_restore`
  unfoldable pub inplace_restore : Restorer R → Service → Snapshot → Run R (Unit {0})
  unfolding update_job back_up restore_service_from_snapshot
  inplace_restore b service snap = do
    modify (update_job (b.clock 3) (status_text created "Waiting for pre-restore backup"))
    failsafe ← keep_job (back_up b.worker service pre_restore)
    modify (update_job (b.clock 4) (restoring snap))
    λ w. revert b service failsafe (restore_service_from_snapshot b service snap.id false w)

  abbrev pub restore_by : Restorer R → Service → Snapshot → RestoreStrategy → Run R (Unit {0})
  restore_by b service snap inplace = inplace_restore b service snap
  restore_by b service snap download_verify_overwrite = do
    modify (update_job (b.clock 3) (restoring snap))
    restore_service_from_snapshot b service snap.id true

  -- The block that runs while the service is stopped.
  unfoldable pub restore_stopped :
      Restorer R → Service → Snapshot → RestoreStrategy → Run R (Unit {0})
  unfolding assert_dead inplace_restore update_job
  restore_stopped b service snap strategy = do
    if b.is_always_active service then pure tt else assert_dead b service
    b.pre_restore service
    restore_by b service snap strategy
    b.post_restore service
    modify (update_job (b.clock 7) restarting)

  -- The block under `try`; the strategy is not passed to the check of the space.
  unfoldable pub restore_attempt :
      Restorer R → Service → Snapshot → RestoreStrategy → Run R (Unit {0})
  unfolding assert_restorable with_stopped_service restore_stopped update_job
  restore_attempt b service snap strategy = do
    assert_restorable b snap download_verify_overwrite
    modify (update_job (b.clock 2) (status_text running "Stopping the service"))
    with_stopped_service b service (restore_stopped b service snap strategy)

  abbrev pub finish_restore :
      Restorer R → Result String (Unit {0}) × World R → Result String (Unit {0}) × World R
  finish_restore b (ok u, w) = (ok tt, update_job (b.clock 8) (update_of finished) w)
  finish_restore b (err e, w) = (err e, update_job (b.clock 8) (status_text error e) w)

  unfoldable pub restore_snapshot : Restorer R → Snapshot → RestoreStrategy → Run R (Unit {0})
  unfolding ensure_queued_restore_job restore_attempt update_job
  restore_snapshot b snap strategy = do
    service ← from_option no_such_service (b.find_service snap.service_name)
    ensure_queued_restore_job b service snap
    λ w. finish_restore b (restore_attempt b service snap strategy w)
