-- ===== src/Backup/Failure.antt =====
-- A failed backup: the job says so, and the error goes on.
use selfprivacy_api.Base.{ℕ, String, ◌≡◌, refl, ◌∙◌, true, some, eq_refl, err}
use selfprivacy_api.Backup.Model.{BackupReason}
use selfprivacy_api.Backup.ServiceJobs.{Service, get_backup_job}
use selfprivacy_api.Backup.Run.{
  World, Worker, update_job, attempt, failed_with, back_up_with, back_up,
}
use selfprivacy_api.Jobs.Model.{running, error, Job, Update, update_of}
use selfprivacy_api.Jobs.Store.{text_or_none, loaded, apply_update, get_job, exists_job}
use selfprivacy_api.Jobs.Lifecycle.{get_job_after_update}

module _ {R : Type 0} where
  back_up_with-err :
      (b : Worker R) (service : Service) (reason : BackupReason) (w w' : World R) (e : String)
      → attempt b service reason (update_job (b.clock 1) (update_of running) w) ≡ (err e, w')
      → back_up_with b service reason w ≡ (err e, update_job (b.clock 3) (failed_with e) w')
  unfolding back_up_with
  back_up_with-err b service reason w w' e failed = rw (failed, back_up_with) (rw failed refl)

  back_up-queued :
      (b : Worker R) (service : Service) (reason : BackupReason) (w : World R) (j : Job)
      → get_backup_job w.server.job_eq service w.server.jobs ≡ some j
      → back_up b service reason w ≡ back_up_with b service reason (record w { job = j })
  unfolding back_up
  back_up-queued b service reason w j queued = rw (queued, back_up) refl

  pub update_job-get_job :
      (now : ℕ) (u : Update) (w : World R)
      → exists_job w.job.uid w.server.jobs ≡ true
      → get_job w.job.uid (update_job now u w).server.jobs
        ≡ some (loaded (apply_update now u w.job))
  unfolding update_job
  update_job-get_job now u w here =
      get_job_after_update now u w.job w.server.jobs w.job.uid ∙ simp (eq_refl, here)

  -- If anything between the start of the queued job and the end of the backup raises, `back_up`
  -- raises the same error, and the job, if it is still stored, is then found in error with
  -- its text.
  pub back_up_marks_error :
      (b : Worker R) (service : Service) (reason : BackupReason) (w w' : World R) (j : Job)
      (e : String)
      → get_backup_job w.server.job_eq service w.server.jobs ≡ some j
      → attempt b service reason (update_job (b.clock 1) (update_of running) (record w { job = j }))
        ≡ (err e, w')
      → exists_job w'.job.uid w'.server.jobs ≡ true
      → let (result, after) = back_up b service reason w in
        (result ≡ err e)
        × ((x : Job) × (get_job w'.job.uid after.server.jobs ≡ some x)
            × (x.status ≡ error)
            × (x.error_text ≡ text_or_none (some e)))
  unfolding loaded apply_update
  back_up_marks_error b service reason w w' j e queued failed here =
      let whole =
        back_up-queued b service reason w j queued
        ∙ back_up_with-err b service reason (record w { job = j }) w' e failed in
      rw whole (refl, (_, update_job-get_job (b.clock 3) (failed_with e) w' here, refl, refl))
