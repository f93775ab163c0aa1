-- ===== src/Backup/Tests.antt =====
-- The theorems on backups at concrete inputs.
use mathlib.Core.List.{head?}
use selfprivacy_api.Backup.Slice.{
  manager_id, last_backup_slice, eligible_for_full_restoration, which_snapshots_to_full_restore,
}
use selfprivacy_api.Backup.Run.{World, Worker, update_job, attempt, back_up}
use selfprivacy_api.Backup.Failure.{back_up_marks_error}
use selfprivacy_api.Jobs.Model.{created, running, error, Job, update_of}
use selfprivacy_api.Jobs.Store.{update, log_status_update, apply_update, text_or_none, add, get_job}
use selfprivacy_api.Base.{
  insert, pure, raise, err, if◌then◌else◌, Option, ok, ℕ, ◌/◌, ◌≤◌, String, ◌≡◌, refl, true, false,
  none, some, List, [], ◌∷◌, arith, str_eq, lookup, length,
}
use selfprivacy_api.Base.Int.{ℤ, pos}
use selfprivacy_api.Backup.Model.{snapshot_eq, auto, Snapshot, AutobackupQuotas, sort_newest}
use selfprivacy_api.Backup.Rotation.{
  Calendar, rotation_value, visit_bucket, visit_buckets, prune_snaps_with_quotas,
}
use selfprivacy_api.Backup.Storage.{BackupStore, on_new_snapshot_created}
use selfprivacy_api.Backup.ServiceJobs.{
  get_job_by_type, backup_job_type, get_backup_job, Service, last_if_any,
}
use selfprivacy_api.Jobs.Store.{get_jobs}
use selfprivacy_api.Backup.Kept.{prune-le-quotas, prune_keeps_newest}
use selfprivacy_api.Backup.Schedule.{Server, is_time_to_backup_service, not_due_after_backup}

-- A calendar of thirty-day months, enough to run the code on.
abbrev pub plain : Calendar
plain = record {
  year = λ t. t / 31104000;
  month = λ t. t / 2592000;
  day = λ t. t / 86400;
  iso_week = λ t. t / 604800;
}

abbrev snap : String → ℕ → Snapshot
snap id date = record { id = id; service_name = "gitea"; created_at = date; reason = auto }

abbrev snaps : List Snapshot
snaps = snap "a" 1000 ∷ snap "b" 90000 ∷ snap "c" 95000 ∷ snap "d" 200000 ∷ []

abbrev quotas : ℤ → ℤ → AutobackupQuotas
quotas last daily = record {
  last = last;
  daily = daily;
  weekly = pos 0;
  monthly = pos 0;
  yearly = pos 0;
}

-- One by index and two by day: the newest, and the newest of the day before.
prune-snaps :
    prune_snaps_with_quotas plain (quotas (pos 1) (pos 2)) snaps
    ≡ snap "d" 200000 ∷ snap "c" 95000 ∷ []
unfolding prune_snaps_with_quotas visit_buckets visit_bucket rotation_value
prune-snaps = refl

prune-le-quotas_example : length (prune_snaps_with_quotas plain (quotas (pos 1) (pos 2)) snaps) ≤ 3
prune-le-quotas_example = prune-le-quotas plain 1 2 0 0 0 snaps

prune_keeps_newest_example :
    head? (prune_snaps_with_quotas plain (quotas (pos 0) (pos 2)) snaps)
    ≡ head? (sort_newest (λ s. s.created_at) snaps)
prune_keeps_newest_example = prune_keeps_newest plain (quotas (pos 0) (pos 2)) snaps refl

abbrev pub gitea : Service
gitea = record {
  id = "gitea";
  display_name = "Forgejo";
  is_enabled = true;
  can_be_backed_up = true;
}

abbrev pub storage : BackupStore
storage = record {
  provider = none;
  period = some 60;
  initted = true;
  quotas = none;
  snapshots = [];
  last_backups = [];
}

abbrev pub server : Server
server = record {
  storage = storage;
  jobs = record { jobs = []; status_logs = []; progress_logs = [] };
  job_eq = λ a b. str_eq a.uid b.uid;
  to_utc = λ t. t;
}

not_due_after_backup_example :
    is_time_to_backup_service gitea 3000 (record server {
      storage = on_new_snapshot_created snaps gitea.id (snap "e" 1000) server.storage;
    })
    ≡ false
not_due_after_backup_example =
    not_due_after_backup server gitea (snap "e" 1000) snaps 60 3000 refl (omega arith)

abbrev pub snap_of : String → String → ℕ → Snapshot
snap_of service_name id created_at = record {
  id = id;
  service_name = service_name;
  created_at = created_at;
  reason = auto;
}

abbrev backed_up : BackupStore
backed_up = record storage {
  snapshots =
      ("a", snap_of "gitea" "a" 1000)
      ∷ ("b", snap_of manager_id "b" 2000)
      ∷ ("c", snap_of "gitea" "c" 2500)
      ∷ [];
}

abbrev pub find_gitea : String → Option Service
find_gitea id = if str_eq id "gitea" then some gitea else none

-- The run of the example restores the service and then the API.
full_restore-backed_up :
    which_snapshots_to_full_restore find_gitea (last_backup_slice (gitea ∷ []) backed_up)
    ≡ ok (snap_of "gitea" "c" 2500 ∷ snap_of manager_id "b" 2000 ∷ [])
unfolding which_snapshots_to_full_restore last_backup_slice snapshot_eq
    eligible_for_full_restoration
full_restore-backed_up = refl

abbrev no_connection : Worker (Unit {0})
no_connection = record {
  calendar = plain;
  clock = λ n. n;
  uid = "u2";
  pre_backup = λ service. pure tt;
  post_backup = λ service. pure tt;
  start_backup = λ service reason. raise "no connection";
  list_snapshots = pure [];
  forget_ids = λ ids. pure tt;
}

abbrev queued_server : Server
queued_server = record server {
  jobs =
      (add "u1" 0 "Backup" "services.gitea.backup" "Backing up" none none created "" 0
        server.jobs).1;
}

abbrev queued_job : Job
queued_job =
    (add "u1" 0 "Backup" "services.gitea.backup" "Backing up" none none created "" 0 server.jobs).0

abbrev queued_world : World (Unit {0})
queued_world = record { job = queued_job; server = queued_server; remote = tt }

abbrev failed_world : World (Unit {0})
failed_world = (attempt no_connection gitea auto (update_job 1 (update_of running) queued_world)).1

back_up_marks_error_example :
    let (result, after) = back_up no_connection gitea auto queued_world in
    (result ≡ err "no connection")
    × ((x : Job) × (get_job failed_world.job.uid after.server.jobs ≡ some x)
        × (x.status ≡ error)
        × (x.error_text ≡ text_or_none (some "no connection")))
unfolding get_backup_job attempt get_job_by_type last_if_any get_jobs add insert backup_job_type
    lookup update log_status_update apply_update
back_up_marks_error_example =
    back_up_marks_error no_connection gitea auto queued_world failed_world queued_job
      "no connection" refl refl refl
