-- ===== src/Backup/RestoreTests.antt =====
-- The theorems on restores and unattended backups at concrete inputs. The remote is a log of what
-- was called.
use selfprivacy_api.Base.{
  String, ◌≡◌, refl, false, none, some, List, [], ◌∷◌, str_eq, str_mem, lookup, insert,
  if◌then◌else◌, ok, err, pure, raise,
}
use selfprivacy_api.Backup.Model.{pre_restore, Snapshot, insert_newest}
use selfprivacy_api.Backup.Storage.{force_snapshot_cache_reload, get_cached_snapshot_by_id}
use selfprivacy_api.Backup.ServiceJobs.{
  backup_job_type, get_backup_job, get_job_by_type, last_if_any, add_backup_job,
  is_something_running_for, get_jobs_by_service,
}
use selfprivacy_api.Backup.Run.{World, Worker, update_job, back_up}
use selfprivacy_api.Backup.Restore.{
  active, inactive, inplace, in_time, Restorer, status_text, waited_result,
  ensure_queued_restore_job,
}
use selfprivacy_api.Backup.InPlace.{
  start_timeout, inplace_restore, with_stopped_service, restore_attempt, restore_snapshot,
}
use selfprivacy_api.Backup.Restored.{
  restore_marks_error, with_stopped_service_restarts, after_revert, failed_and,
  inplace_restore_reverts,
}
use selfprivacy_api.Backup.Tasks.{Tasks}
use selfprivacy_api.Backup.FullRestore.{FullRestorer}
use selfprivacy_api.System.Rebuild.{Systemd}
use selfprivacy_api.Backup.Tests.{gitea, storage, server, plain, snap_of, find_gitea}
use selfprivacy_api.Jobs.Model.{created, error, Job}
use selfprivacy_api.Jobs.Store.{
  text_or_none, add, get_job, get_jobs, update, log_status_update, apply_update, set_expiration,
  log_progress_update,
}

abbrev failsafe : Snapshot
failsafe = record (snap_of "gitea" "f" 5000) { reason = pre_restore }

abbrev target : Snapshot
target = snap_of "gitea" "c" 2500

abbrev worker : Worker (List String)
worker = record {
  calendar = plain;
  clock = λ n. n;
  uid = "u2";
  pre_backup = λ service. pure tt;
  post_backup = λ service. pure tt;
  start_backup = λ service reason. pure failsafe;
  list_snapshots = pure (failsafe ∷ []);
  forget_ids = λ ids. pure tt;
}

-- The snapshot "c" is broken.
abbrev restorer : Restorer (List String)
restorer = record {
  worker = worker;
  clock = λ n. n;
  uid = "u1";
  find_service = find_gitea;
  is_always_active = λ service. false;
  get_status = λ service log. (ok (if str_mem "stop" log then inactive else active), log);
  stop = λ service log. (in_time, "stop" ∷ log);
  start = λ service log. (in_time, "start" ∷ log);
  pre_restore = λ service. pure tt;
  post_restore = λ service. pure tt;
  folders = λ service. "/var/lib/gitea" ∷ [];
  folder_space = λ folder log. some 1000;
  device_space = λ service log. none;
  restored_size = λ id. pure 10;
  storage_usage = λ service. pure 5;
  restore_from_backup =
      λ id folders verify log. ((if str_eq id "c" then err "broken" else ok tt), id ∷ log);
}

abbrev no_job : Job
no_job = (add "u0" 0 "" "" "" none none created "" 0 server.jobs).0

abbrev idle : World (List String)
idle = record { job = no_job; server = server; remote = [] }

abbrev queued : World (List String)
queued = (ensure_queued_restore_job restorer gitea target idle).1

abbrev failed : World (List String)
failed = (restore_attempt restorer gitea target inplace queued).1

restore_marks_error_example :
    let (result, after) = restore_snapshot restorer target inplace idle in
    (result ≡ err "broken")
    × ((x : Job) × (get_job failed.job.uid after.server.jobs ≡ some x)
        × (x.status ≡ error)
        × (x.status_text ≡ text_or_none (some "broken")))
unfolding ensure_queued_restore_job restore_attempt str_mem insert force_snapshot_cache_reload
    insert_newest backup_job_type get_cached_snapshot_by_id apply_update get_backup_job
    get_job_by_type last_if_any get_jobs update lookup log_status_update add add_backup_job
    is_something_running_for get_jobs_by_service set_expiration log_progress_update
restore_marks_error_example =
    restore_marks_error restorer gitea target inplace idle queued failed "broken" refl refl refl
      refl

with_stopped_service_restarts_example :
    with_stopped_service restorer gitea (raise "broken") idle ≡ (
      (elim (waited_result start_timeout in_time) [ err e ↦ err e | ok _ ↦ err "broken" ]),
      record idle { remote = "start" ∷ "stop" ∷ [] },
    )
unfolding str_mem
with_stopped_service_restarts_example =
    with_stopped_service_restarts restorer gitea (raise "broken") idle
      (record idle { remote = "stop" ∷ [] }) active [] ("stop" ∷ []) (err "broken") refl refl refl
      refl refl refl

abbrev waiting_world : World (List String)
waiting_world = update_job 3 (status_text created "Waiting for pre-restore backup") queued

abbrev safe : World (List String)
safe = (back_up worker gitea pre_restore waiting_world).1

inplace_restore_reverts_example :
    let (result, after) = inplace_restore restorer gitea target queued in
    (result ≡ err "broken")
    × (after
        ≡ after_revert restorer target failsafe "broken" waiting_world.job
            ("c" ∷ [])
            ("f" ∷ "c" ∷ [])
            safe)
    × (after.remote ≡ "f" ∷ "c" ∷ [])
    × (after.job.status ≡ error)
    × (after.job.uid ≡ waiting_world.job.uid)
    × ((x : Job) × (get_job waiting_world.job.uid after.server.jobs ≡ some x)
        × (x.status ≡ error)
        × (x.status_text
            ≡ text_or_none (failed_and restorer ", reverted to " "broken" failsafe).status_text))
unfolding ensure_queued_restore_job restore_attempt str_mem insert force_snapshot_cache_reload
    insert_newest backup_job_type get_cached_snapshot_by_id apply_update get_backup_job
    get_job_by_type last_if_any get_jobs update lookup log_status_update add add_backup_job
    is_something_running_for get_jobs_by_service set_expiration log_progress_update
inplace_restore_reverts_example =
    inplace_restore_reverts restorer gitea target failsafe queued waiting_world safe "broken"
      ("c" ∷ []) ("f" ∷ "c" ∷ []) refl refl refl refl refl

abbrev tasks : Tasks (List String)
tasks = record {
  worker = λ n. record worker { start_backup = λ service reason. raise "no connection" };
  clock = λ n. n;
  uid = "u3";
  describe = λ separator e. e;
  find_service = find_gitea;
}

abbrev disabled : World (List String)
disabled = record idle { server = record server { storage = record storage { period = none } } }

-- systemd does not start the unit.
abbrev broken_systemd : Systemd (List String)
broken_systemd = record {
  clock = λ n. n;
  messages = [];
  start_unit = λ unit_name. raise "no such unit";
  wait_active = λ unit_name log. (in_time, log);
  wait_stopped = λ unit_name log. (in_time, log);
  unit_status = λ unit_name. pure inactive;
  last_log_lines = λ unit_name. pure [];
}

abbrev full_restorer : FullRestorer (List String)
full_restorer = record {
  restorer = λ n. restorer;
  systemd = broken_systemd;
  clock = λ n. n;
  uid = "u4";
  describe = λ separator e. e;
  find_service = find_gitea;
  enabled = gitea ∷ [];
}
