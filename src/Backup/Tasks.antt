-- ===== src/Backup/Tasks.antt =====
-- The worker tasks of selfprivacy_api/backup/tasks.py that back up, and the jobs they report to
-- (selfprivacy_api/backup/jobs.py).
use Prim.Native.String.{◌++◌ as str_append}
use selfprivacy_api.Base.{
  ℕ, suc, ◌+◌, ◌*◌, ◌/◌, String, Bool, true, false, not, ◌&&◌, str_eq, Option, none, some, List, [],
  ◌∷◌, length, any, if◌then◌else◌, is_some, Result, ok, err, Action, pure, gets, modify, ◌>>=◌,
  ◌>>◌,
}
use selfprivacy_api.Base.Int.{ℤ, pos}
use selfprivacy_api.Backup.Model.{BackupReason, explicit, auto}
use selfprivacy_api.Backup.Storage.{autobackup_period_minutes}
use selfprivacy_api.Backup.ServiceJobs.{Service, is_something_running_for}
use selfprivacy_api.Backup.Slice.{manager_id}
use selfprivacy_api.Backup.Schedule.{set_autobackup_period_minutes, services_to_back_up}
use selfprivacy_api.Backup.Run.{
  World, Run, Worker, set_storage, set_jobs, update_job, back_up, prune_auto_snaps,
}
use selfprivacy_api.Backup.InPlace.{keep_job}
use selfprivacy_api.Jobs.Model.{created, running, finished, error, Job, Args, Update, update_of}
use selfprivacy_api.Jobs.Store.{JobStore, add}

-- `worker n` is for the n-th backup of a task. `describe` puts the name of an exception's class
-- and a separator before its text.
pub record Tasks (R : Type 0) : Type 0 where
  pub worker : ℕ → Worker R
  pub clock : ℕ → ℕ
  pub uid : String
  pub describe : (separator : String) → String → String
  pub find_service : String → Option Service

abbrev pub busy : String
busy = "Cannot start a restore, another operation is running"

abbrev pub unknown_service : String
unknown_service = "No such service"

abbrev pub reported : String → Update
reported text_ = record (update_of error) { error_text = some text_ }

abbrev pub progressed : ℕ → Update
progressed n = record (update_of running) { progress = some n }

-- `", ".join(names)`
abbrev pub pretty_list : List Service → String
pretty_list [] = ""
pretty_list (s ∷ []) = s.display_name
pretty_list (s ∷ t ∷ ss) = str_append s.display_name (str_append ", " (pretty_list (t ∷ ss)))

-- `add_autobackup_job`
unfoldable pub add_autobackup_job : String → ℕ → List Service → JobStore → Job × JobStore
unfolding add
add_autobackup_job uid now services =
    let args : Args = some (("pretty_service_list", pretty_list services) ∷ []) in
    add uid now "Automatic backup" "backups.autobackup"
      "Scheduled backup for services: %(pretty_service_list)s" none args created "" 0

-- `ensure_nothing_runs_for` over the enabled services, the service manager left out
unfoldable pub ensure_nothing_runs : List Service → JobStore → Bool
unfolding is_something_running_for
ensure_nothing_runs services s =
    not
      (any (λ (x : Service). not (str_eq x.id manager_id) && is_something_running_for x s) services)

-- `add_total_backup_job`
unfoldable pub add_total_backup_job : String → ℕ → List Service → Action JobStore String Job
unfolding ensure_nothing_runs add
add_total_backup_job uid now services s =
    if ensure_nothing_runs services s
    then (let (j, s') =
          add uid now "Total backup" "backups.total_backup" "Backing up all the enabled services"
            none none created "" 0 s in
        (ok j, s'))
    else (err busy, s)

-- `add_total_restore_job`
unfoldable pub add_total_restore_job : String → ℕ → List Service → Action JobStore String Job
unfolding ensure_nothing_runs add
add_total_restore_job uid now services s =
    if ensure_nothing_runs services s
    then (let (j, s') =
          add uid now "Total restore" "backups.total_restore" "Restoring all enabled services" none
            none created "" 0 s in
        (ok j, s'))
    else (err busy, s)

module _ {R : Type 0} where
  -- `except Exception as error: report_job_error(error, job); raise error`
  abbrev pub reporting :
      {A : Type 0} → Tasks R → ℕ → Result String A × World R → Result String A × World R
  reporting b n (ok a, w) = (ok a, w)
  reporting b n (err e, w) = (err e, update_job (b.clock n) (reported (b.describe ": " e)) w)

  -- The loop over the services; `n` counts them.
  unfoldable pub back_up_each :
      Tasks R → BackupReason → (n progress step : ℕ) → List Service → Run R (Unit {0})
  unfolding update_job back_up
  back_up_each b reason n progress step [] = pure tt
  back_up_each b reason n progress step (service ∷ services) = do
    λ w. reporting b (suc n) (keep_job (back_up (b.worker n) service reason) w)
    modify (update_job (b.clock (suc n)) (progressed (progress + step)))
    back_up_each b reason (suc n) (progress + step) step services

  unfoldable pub back_up_multiple : Tasks R → List Service → BackupReason → Run R (Unit {0})
  unfolding back_up_each update_job
  back_up_multiple b [] reason = pure tt
  back_up_multiple b (s ∷ ss) reason = do
    modify (update_job (b.clock 0) (progressed 0))
    back_up_each b reason 0 0 (100 / length (s ∷ ss)) (s ∷ ss)

  unfoldable pub do_total_backup : Tasks R → (enabled : List Service) → Run R (Unit {0})
  unfolding back_up_multiple update_job
  do_total_backup b enabled = do
    back_up_multiple b enabled explicit
    modify (update_job (b.clock (suc (length enabled))) (update_of finished))

  abbrev pub set_period : ℤ → World R → World R
  set_period minutes w = set_storage (set_autobackup_period_minutes minutes w.server.storage) w

  abbrev pub new_autobackup_job : Tasks R → List Service → World R → World R
  new_autobackup_job b services w =
      let (j, js) = add_autobackup_job b.uid (b.clock 0) services w.server.jobs in
      record (set_jobs js w) { job = j }

  -- The task once some service is due.
  unfoldable pub autobackup_due :
      Tasks R → (backups_were_disabled : Bool) → List Service → Run R (Unit {0})
  unfolding back_up_multiple add_autobackup_job set_autobackup_period_minutes update_job
  autobackup_due b backups_were_disabled due = do
    modify (new_autobackup_job b due)
    back_up_multiple b due auto
    if backups_were_disabled then modify (set_period (pos 0)) else pure tt
    modify (update_job (b.clock (suc (length due))) (update_of finished))

  abbrev pub autobackup_of : Tasks R → Bool → List Service → Run R (Unit {0})
  autobackup_of b backups_were_disabled [] = pure tt
  autobackup_of b backups_were_disabled (s ∷ ss) = autobackup_due b backups_were_disabled (s ∷ ss)

  unfoldable pub do_autobackup : Tasks R → (services : List Service) → (time : ℕ) → Run R (Unit {0})
  unfolding autobackup_due services_to_back_up set_autobackup_period_minutes
  do_autobackup b services time = do
    backups_were_disabled ← gets (λ w. not (is_some (autobackup_period_minutes w.server.storage)))
    if backups_were_disabled then modify (set_period (pos (24 * 60))) else pure tt
    due ← gets (λ w. services_to_back_up services time w.server)
    autobackup_of b backups_were_disabled due

  -- `start_backup`
  unfoldable pub start_backup : Tasks R → (service_id : String) → BackupReason → Run R Bool
  unfolding back_up
  start_backup b service_id reason w = elim (b.find_service service_id) [
    | none ↦ (err unknown_service, w)
    | some service ↦ (do _ ← back_up (b.worker 0) service reason; pure true) w
  ]

  -- `Backups.prune_all_autosnaps`
  unfoldable pub prune_all_autosnaps : Worker R → List Service → Run R (Unit {0})
  unfolding prune_auto_snaps
  prune_all_autosnaps b [] = pure tt
  prune_all_autosnaps b (service ∷ services) = do
    prune_auto_snaps b service
    prune_all_autosnaps b services

  abbrev pub pruned : Tasks R → Result String (Unit {0}) × World R → Result String Bool × World R
  pruned b (ok u, w) = (ok true, update_job (b.clock 1) (update_of finished) w)
  pruned b (err e, w) = (ok false, update_job (b.clock 1) (reported (b.describe ":" e)) w)

  -- `prune_autobackup_snapshots`
  unfoldable pub prune_autobackup_snapshots : Tasks R → List Service → Run R Bool
  unfolding prune_all_autosnaps update_job
  prune_autobackup_snapshots b services w =
      pruned b
        (prune_all_autosnaps (b.worker 0) services (update_job (b.clock 0) (update_of running) w))
