-- ===== src/Jobs/Tests.antt =====
-- The theorems on jobs at concrete inputs.
use selfprivacy_api.Base.{◌≡◌, refl, none, some, [], lookup, insert}
use selfprivacy_api.Jobs.Model.{Update, created, finished, Job, update_of}
use selfprivacy_api.Jobs.Store.{
  JobStore, store_job, expire, log_status_update, log_progress_update, add, apply_update, update,
}
use selfprivacy_api.Jobs.Lifecycle.{IsValid}
use selfprivacy_api.Jobs.Reach.{added_open, updated, Reach, start, next, Reach-IsValid}

abbrev empty_store : JobStore
empty_store = record { jobs = []; status_logs = []; progress_logs = [] }

abbrev one_job : JobStore
one_job = (add "u1" 5 "n" "t" "d" none none created "" 0 empty_store).1

abbrev job : Job
job = (add "u1" 5 "n" "t" "d" none none created "" 0 empty_store).0

finish_job : JobStore
finish_job = (update 9 (update_of finished) job one_job).1

-- A finished job is at 100 percent, with a date and a time to live.
finish_job-u1 :
    lookup "u1" finish_job.jobs
    ≡ some (record {
      job = record job {
        status = finished;
        progress = some 100;
        updated_at = 9;
        finished_at = some 9;
      };
      ttl = some 864000;
    })
unfolding finish_job update add apply_update store_job expire log_status_update log_progress_update
    lookup insert
finish_job-u1 = refl

abbrev done : Update
done = record (update_of finished) { result = some "1 GB"; progress = some 70 }

one_job-Reach : Reach one_job
one_job-Reach = next start (added_open "u1" 5 "n" "t" "d" none none created "" 0 empty_store refl)

Reach-IsValid_example : IsValid (update 9 (update_of finished) job one_job).1
Reach-IsValid_example =
    Reach-IsValid (next one_job-Reach (updated 9 (update_of finished) job one_job))
