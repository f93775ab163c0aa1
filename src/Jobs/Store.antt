-- ===== src/Jobs/Store.antt =====
-- The methods of `Jobs` (selfprivacy_api/jobs/__init__.py) on the Redis keys `jobs:*` and
-- `jobs_logs:*`, kept as dicts by the job's uid. Keys that expire go away between calls.
use selfprivacy_api.Base.{
  ℕ, ◌*◌, String, Bool, true, false, not, Option, none, some, List, [], ◌∷◌, map, str_eq, ◌==◌,
  ◌||◌, Result, ok, err, if◌then◌else◌, is_some, Dict, lookup, insert, erase, values, any,
}
use selfprivacy_api.Jobs.Model.{
  JobStatus, running, finished, is_terminal, status_eq, Args, Job, Update, update_of,
}

pub record Entry : Type 0 where
  pub job : Job
  pub ttl : Option ℕ

pub record JobStore : Type 0 where
  pub jobs : Dict Entry
  pub status_logs : Dict (List JobStatus)
  pub progress_logs : Dict (List ℕ)

-- `"None"` is read back as `None`.
abbrev pub text_or_none : Option String → Option String
text_or_none none = none
text_or_none (some s) = if str_eq s "None" then none else some s

-- The texts without which `Job` has a validation error: none of them is `"None"`.
abbrev pub is_readable : Job → Bool
is_readable j = not (
    str_eq j.uid "None"
    || str_eq j.type_id "None"
    || str_eq j.name "None"
    || str_eq j.description "None")

-- `_job_from_hash`, for a job that is readable.
unfoldable pub loaded : Job → Job
loaded j = record j {
  status_text = text_or_none j.status_text;
  error_text = text_or_none j.error_text;
  result = text_or_none j.result;
}

abbrev pub exists_job : String → JobStore → Bool
exists_job uid s = is_some (lookup uid s.jobs)

abbrev pub ttl_of : Option Entry → Option ℕ
ttl_of none = none
ttl_of (some e) = e.ttl

-- `store_model_as_hash`: HSET keeps the key's time to live.
unfoldable pub store_job : Job → JobStore → JobStore
store_job j s = record s {
  jobs = insert j.uid (record { job = j; ttl = ttl_of (lookup j.uid s.jobs) }) s.jobs;
}

-- EXPIRE, which does nothing where the key is missing
unfoldable pub expire : String → ℕ → JobStore → JobStore
expire uid seconds s = elim (lookup uid s.jobs) [
  | none ↦ s
  | some e ↦ record s { jobs = insert uid (record e { ttl = some seconds }) s.jobs }
]

abbrev pub log_of {ℓ} : {A : Type ℓ} → String → Dict (List A) → List A
log_of uid d = elim (lookup uid d) [ none ↦ [] | some xs ↦ xs ]

unfoldable pub log_status_update : Job → JobStatus → JobStore → JobStore
log_status_update j status s = record s {
  status_logs = insert j.uid (status ∷ log_of j.uid s.status_logs) s.status_logs;
}

unfoldable pub log_progress_update : Job → ℕ → JobStore → JobStore
log_progress_update j progress s = record s {
  progress_logs = insert j.uid (progress ∷ log_of j.uid s.progress_logs) s.progress_logs;
}

-- `uid` is `uuid.uuid4()` and `now` is `datetime.now()`.
unfoldable pub add :
    (uid : String) (now : ℕ) (name type_id description : String) (name_args description_args : Args)
    (status : JobStatus) (status_text : String) (progress : ℕ)
    → JobStore
    → Job × JobStore
unfolding store_job
add uid now name type_id description name_args description_args status status_text progress s =
    let job : Job = record {
      uid = uid;
      type_id = type_id;
      name = name;
      description = description;
      name_args = name_args;
      description_args = description_args;
      status = status;
      status_text = some status_text;
      status_text_args = none;
      progress = some progress;
      created_at = now;
      updated_at = now;
      finished_at = none;
      error_text = none;
      error_args = none;
      result = none;
      result_args = none;
    } in
    (job, store_job job s)

unfoldable pub remove_by_uid : String → JobStore → Bool × JobStore
remove_by_uid uid s =
    if exists_job uid s then (true, record s { jobs = erase uid s.jobs }) else (false, s)

unfoldable pub remove : Job → JobStore → JobStore
unfolding remove_by_uid
remove j s = (remove_by_uid j.uid s).1

-- `get_job`, where the job is readable
unfoldable pub get_job : String → JobStore → Option Job
unfolding loaded
get_job uid s = elim (lookup uid s.jobs) [ none ↦ none | some e ↦ some (loaded e.job) ]

-- `_job_from_hash`
unfoldable pub job_from_hash : Job → Result String Job
unfolding loaded
job_from_hash j = if is_readable j then ok (loaded j) else err "validation error for Job"

-- `get_job`, with the exception of a job that cannot be read
unfoldable pub read_job : String → JobStore → Result String (Option Job)
unfolding job_from_hash
read_job uid s = elim (lookup uid s.jobs) [
  | none ↦ ok none
  | some e ↦ elim (job_from_hash e.job) [ err e ↦ err e | ok j ↦ ok (some j) ]
]

-- `get_jobs`, where every job is readable
unfoldable pub get_jobs : JobStore → List Job
unfolding loaded
get_jobs s = map (λ (e : Entry). loaded e.job) (values s.jobs)

-- `for job in jobs: Jobs.remove(job)`
abbrev pub remove_all : List Job → JobStore → JobStore
remove_all [] s = s
remove_all (j ∷ js) s = remove_all js (remove j s)

-- Only the keys under `STATUS_LOGS_PREFIX` are deleted.
unfoldable pub reset_logs : JobStore → JobStore
reset_logs s = record s { status_logs = [] }

unfoldable pub reset : JobStore → JobStore
unfolding reset_logs
reset s = reset_logs (remove_all (get_jobs s) s)

unfoldable pub status_updates : Job → JobStore → List JobStatus
status_updates j s = log_of j.uid s.status_logs

unfoldable pub progress_updates : Job → JobStore → List ℕ
progress_updates j s = log_of j.uid s.progress_logs

abbrev pub final_progress : JobStatus → Option ℕ → Option ℕ
final_progress finished none = some 100
final_progress _ p = p

abbrev pub differs : Option ℕ → ℕ → Bool
differs none p = true
differs (some q) p = not (q == p)

-- the progress to log, if it is new
abbrev pub new_progress : Job → Update → Option ℕ
new_progress j u = elim (final_progress u.status u.progress) [
  | none ↦ none
  | some p ↦ if differs j.progress p then some p else none
]

-- What `Jobs.update` does to the job object.
unfoldable pub apply_update : ℕ → Update → Job → Job
apply_update now u j = record {
  uid = j.uid;
  type_id = j.type_id;
  name = elim u.name [ none ↦ j.name | some n ↦ n ];
  name_args = if is_some u.name then u.name_args else j.name_args;
  description = elim u.description [ none ↦ j.description | some d ↦ d ];
  description_args = if is_some u.description then u.description_args else j.description_args;
  status = u.status;
  status_text = elim u.status_text [ none ↦ j.status_text | some t ↦ some t ];
  status_text_args = if is_some u.status_text then u.status_text_args else j.status_text_args;
  progress = elim (new_progress j u) [ none ↦ j.progress | some p ↦ some p ];
  created_at = j.created_at;
  updated_at = now;
  finished_at = if is_terminal u.status then some now else j.finished_at;
  error_text = u.error_text;
  error_args = u.error_args;
  result = u.result;
  result_args = u.result_args;
}

-- ten days
abbrev pub job_expiration_seconds : ℕ
job_expiration_seconds = 10 * 24 * 60 * 60

abbrev pub log_progress? : Job → Option ℕ → JobStore → JobStore
log_progress? j none s = s
log_progress? j (some p) s = log_progress_update j p s

-- The job is written back only if its key still exists.
unfoldable pub update : ℕ → Update → Job → JobStore → Job × JobStore
update now u j s =
    let j' = apply_update now u j in
    let logged = log_status_update j u.status (log_progress? j (new_progress j u) s) in
    let kept = store_job j' logged in
    (
      j',
      if exists_job j.uid logged
          then (if is_terminal u.status then expire j.uid job_expiration_seconds kept else kept)
          else logged,
    )

unfoldable pub set_expiration : Job → ℕ → JobStore → Job × JobStore
unfolding expire
set_expiration j seconds s = (j, if exists_job j.uid s then expire j.uid seconds s else s)

unfoldable pub is_busy : JobStore → Bool
unfolding get_jobs
is_busy s = any (λ (j : Job). status_eq j.status running) (get_jobs s)

unfoldable pub report_progress : ℕ → ℕ → Job → String → JobStore → Job × JobStore
report_progress now progress j status_text =
    update now
      (record (update_of running) { status_text = some status_text; progress = some progress }) j
