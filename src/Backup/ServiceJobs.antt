-- ===== src/Backup/ServiceJobs.antt =====
-- selfprivacy_api/backup/jobs.py: finding and adding the jobs of a service.
use Prim.Native.String.{◌++◌ as str_append}
use text.Mathlib.Text.{starts_with}
use selfprivacy_api.Base.{
  ℕ, String, Bool, true, false, ◌&&◌, Option, none, some, List, [], ◌∷◌, str_eq, if◌then◌else◌,
  keep, any, ok, err, Action,
}
use selfprivacy_api.Backup.Model.{sort_newest}
use selfprivacy_api.Jobs.Model.{JobStatus, created, running, error, status_eq, Args, Job}
use selfprivacy_api.Jobs.Store.{JobStore, add, get_jobs}

-- What the backup code asks of a service.
pub record Service : Type 0 where
  pub id : String
  pub display_name : String
  pub is_enabled : Bool
  pub can_be_backed_up : Bool

pub data BackupError : Type 0 where
  value_error : BackupError

-- pydantic's `==` on jobs
abbrev pub JobEq : Type 0
JobEq = Job → Job → Bool

unfoldable pub job_type_prefix : Service → String
job_type_prefix s = str_append "services." s.id

unfoldable pub backup_job_type : Service → String
unfolding job_type_prefix
backup_job_type s = str_append (job_type_prefix s) ".backup"

unfoldable pub restore_job_type : Service → String
unfolding job_type_prefix
restore_job_type s = str_append (job_type_prefix s) ".restore"

-- `job.status in [JobStatus.CREATED, JobStatus.RUNNING]`
abbrev pub is_active : JobStatus → Bool
is_active created = true
is_active running = true
is_active _ = false

unfoldable pub get_jobs_by_service : Service → JobStore → List Job
get_jobs_by_service service s =
    keep (λ (j : Job). starts_with j.type_id (job_type_prefix service) && is_active j.status)
      (get_jobs s)

unfoldable pub is_something_running_for : Service → JobStore → Bool
is_something_running_for service s =
    any (λ (j : Job). status_eq j.status running) (get_jobs_by_service service s)

-- `uid` and `now` are what `Jobs.add` draws.
unfoldable pub add_backup_job : String → ℕ → Service → Action JobStore BackupError Job
add_backup_job uid now service s =
    if is_something_running_for service s
    then (err value_error, s)
    else (let args : Args = some (("display_name", service.display_name) ∷ []) in
        let (j, s') =
          add uid now "Backup %(display_name)s" (backup_job_type service)
            "Backing up %(display_name)s" args args created "" 0 s in
        (ok j, s'))

unfoldable pub last_if_any : List Job → Option Job
unfolding sort_newest
last_if_any jobs = elim (sort_newest (λ (j : Job). j.created_at) jobs) [
  | [] ↦ none
  | j ∷ _ ↦ some j
]

unfoldable pub get_jobs_by_type : String → JobStore → List Job
get_jobs_by_type type_id s = keep (λ (j : Job). str_eq j.type_id type_id) (get_jobs s)

unfoldable pub get_ok_jobs : JobStore → List Job
get_ok_jobs s = keep (λ (j : Job). is_active j.status) (get_jobs s)

unfoldable pub get_failed_jobs : JobStore → List Job
get_failed_jobs s = keep (λ (j : Job). status_eq j.status error) (get_jobs s)

unfoldable pub intersection : JobEq → List Job → List Job → List Job
intersection eq a b = keep (λ x. any (λ y. eq y x) b) a

unfoldable pub get_job_by_type : JobEq → String → JobStore → Option Job
unfolding intersection get_jobs_by_type get_ok_jobs
get_job_by_type eq type_id s =
    last_if_any (intersection eq (get_jobs_by_type type_id s) (get_ok_jobs s))

unfoldable pub get_failed_job_by_type : JobEq → String → JobStore → Option Job
unfolding intersection get_jobs_by_type get_failed_jobs
get_failed_job_by_type eq type_id s =
    last_if_any (intersection eq (get_jobs_by_type type_id s) (get_failed_jobs s))

unfoldable pub get_backup_job : JobEq → Service → JobStore → Option Job
get_backup_job eq service = get_job_by_type eq (backup_job_type service)

unfoldable pub get_backup_fail : JobEq → Service → JobStore → Option Job
get_backup_fail eq service = get_failed_job_by_type eq (backup_job_type service)

unfoldable pub get_backup_fails : JobEq → Service → JobStore → List Job
unfolding intersection get_jobs_by_type get_failed_jobs
get_backup_fails eq service s =
    intersection eq (get_failed_jobs s) (get_jobs_by_type (backup_job_type service) s)

unfoldable pub get_restore_job : JobEq → Service → JobStore → Option Job
get_restore_job eq service = get_job_by_type eq (restore_job_type service)
