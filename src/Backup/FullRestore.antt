-- ===== src/Backup/FullRestore.antt =====
-- `do_full_restore` of selfprivacy_api/backup/tasks.py, with the rebuild of the system at its end.
use selfprivacy_api.Base.{
  ℕ, suc, ◌+◌, ◌/◌, length, String, ◌≡◌, refl, ap, false, Option, some, List, [], ◌∷◌, Result, ok,
  err, gets, modify, ◌>>=◌, ◌>>◌, bind-ok, bind-err,
}
use selfprivacy_api.Backup.Model.{Snapshot}
use selfprivacy_api.Backup.ServiceJobs.{Service, BackupError, value_error}
use selfprivacy_api.Backup.Slice.{last_backup_slice, which_snapshots_to_full_restore}
use selfprivacy_api.Backup.Run.{World, Run, set_jobs, update_job}
use selfprivacy_api.Backup.Restore.{download_verify_overwrite, Restorer, status_text}
use selfprivacy_api.Backup.InPlace.{keep_job, restore_snapshot}
use selfprivacy_api.Backup.Tasks.{reported, progressed}
use selfprivacy_api.Jobs.Model.{running, finished, Update, update_of}
use selfprivacy_api.Jobs.Store.{update, apply_update}
use selfprivacy_api.System.Rebuild.{Systemd, add_rebuild_job, rebuild_system, rebuild_system-ok}

-- `restorer n` is for the n-th snapshot.
pub record FullRestorer (R : Type 0) : Type 0 where
  pub restorer : ℕ → Restorer R
  pub systemd : Systemd R
  pub clock : ℕ → ℕ
  pub uid : String
  pub describe : (separator : String) → String → String
  pub find_service : String → Option Service
  pub enabled : List Service

abbrev pub no_api_snapshot : String
no_api_snapshot = "Cannot restore, no configuration snapshot found."

abbrev pub finding : Update
finding = record (status_text running "Finding the last autobackup session") { progress = some 0 }

abbrev pub restored_one : Snapshot → ℕ → Update
restored_one snap n = record (status_text running "restoring %(service_name)s") {
  status_text_args = some (("service_name", snap.service_name) ∷ []);
  progress = some n;
}

abbrev pub rebuilding : Update
rebuilding = record (status_text running "rebuilding system") { progress = some 99 }

abbrev pub found_snapshots : Result BackupError (List Snapshot) → Result String (List Snapshot)
found_snapshots (ok snaps) = ok snaps
found_snapshots (err e) = err no_api_snapshot

module _ {R : Type 0} where
  -- The rebuild has a job of its own.
  unfoldable pub rebuild_with_own_job : FullRestorer R → Run R (Unit {0})
  unfolding add_rebuild_job rebuild_system
  rebuild_with_own_job b w =
      let (j, js) = add_rebuild_job b.uid (b.clock 3) w.server.jobs in
      let (r, v) =
        rebuild_system b.systemd false (record { job = j; jobs = js; remote = w.remote }) in
      (r, record (set_jobs v.jobs w) { remote = v.remote })

  -- What follows the restore of one snapshot: `except` reports and returns.
  abbrev pub next_or_report :
      FullRestorer R
      → ℕ
      → Update
      → (next : Run R (Unit {0})) → Result String (Unit {0}) × World R
      → Result String (Unit {0}) × World R
  next_or_report b n u next (ok x, w) = next (update_job (b.clock n) u w)
  next_or_report b n u next (err e, w) =
      (ok tt, update_job (b.clock n) (reported (b.describe ": " e)) w)

  -- The loop over the snapshots, with what follows it.
  unfoldable pub restore_each :
      FullRestorer R
      → (last : Run R (Unit {0})) → (n progress step : ℕ) → List Snapshot
      → Run R (Unit {0})
  unfolding update_job restore_snapshot
  restore_each b last n progress step [] w = last w
  restore_each b last n progress step (snap ∷ snaps) w =
      next_or_report b (suc n) (restored_one snap (progress + step))
        (restore_each b last (suc n) (progress + step) step snaps)
        (keep_job (restore_snapshot (b.restorer n) snap download_verify_overwrite) w)

  unfoldable pub finish_full_restore : FullRestorer R → Run R (Unit {0})
  unfolding update_job rebuild_with_own_job
  finish_full_restore b = do
    modify (update_job (b.clock 2) rebuilding)
    rebuild_with_own_job b
    modify (update_job (b.clock 4) (update_of finished))

  unfoldable pub do_full_restore : FullRestorer R → Run R (Unit {0})
  unfolding update_job restore_each finish_full_restore last_backup_slice
      which_snapshots_to_full_restore
  do_full_restore b = do
    modify (update_job (b.clock 0) finding)
    slice ← gets (λ w. last_backup_slice b.enabled w.server.storage)
    snaps ← λ w. (found_snapshots (which_snapshots_to_full_restore b.find_service slice), w)
    modify (update_job (b.clock 1) (progressed 0))
    restore_each b (finish_full_restore b) 0 0 (99 / length snaps) snaps

  rebuild_with_own_job-ok :
      (b : FullRestorer R) (w : World R) → (rebuild_with_own_job b w).0 ≡ ok tt
  unfolding rebuild_with_own_job
  rebuild_with_own_job-ok b w = rebuild_system-ok b.systemd false _

  -- Once all snapshots are restored the job of the full restore is finished, however the rebuild of
  -- the system ends.
  pub finish_full_restore-finished :
      (b : FullRestorer R) (w : World R)
      → ((finish_full_restore b w).0 ≡ ok tt) × ((finish_full_restore b w).1.job.status ≡ finished)
  unfolding finish_full_restore update_job update apply_update
  finish_full_restore-finished b w =
      let w1 = update_job (b.clock 2) rebuilding w in
      let last : Unit {0} → Run R (Unit {0}) =
        λ _. modify (update_job (b.clock 4) (update_of finished)) in
      let whole = bind-ok (rebuild_with_own_job b) last {s = w1} (
        ap (λ (r : Result String (Unit {0})). (r, (rebuild_with_own_job b w1).1))
          (rebuild_with_own_job-ok b w1)) in
      (
        ap (λ (q : Result String (Unit {0}) × World R). q.0) whole,
        ap (λ (q : Result String (Unit {0}) × World R). q.1.job.status) whole,
      )

  -- Without a snapshot of the API the full restore raises, and its job still says that it runs.
  pub do_full_restore-missing :
      (b : FullRestorer R) (w : World R)
      → which_snapshots_to_full_restore b.find_service
          (last_backup_slice b.enabled w.server.storage)
        ≡ err value_error
      → (do_full_restore b w ≡ (err no_api_snapshot, update_job (b.clock 0) finding w))
        × ((update_job (b.clock 0) finding w).job.status ≡ running)
  unfolding do_full_restore update_job update apply_update
  do_full_restore-missing b w missing =
      let w1 = update_job (b.clock 0) finding w in
      let find : Run R (List Snapshot) = λ v. (
        found_snapshots (
            which_snapshots_to_full_restore b.find_service
              (last_backup_slice b.enabled w.server.storage)),
        v,
      ) in
      let go : List Snapshot → Run R (Unit {0}) = λ snaps.
        modify (update_job (b.clock 1) (progressed 0))
        >> restore_each b (finish_full_restore b) 0 0 (99 / length snaps) snaps in
      (bind-err find go {s = w1} (ap (λ r. (found_snapshots r, w1)) missing), refl)
