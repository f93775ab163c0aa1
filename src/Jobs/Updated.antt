-- ===== src/Jobs/Updated.antt =====
-- What `Jobs.get_job` answers after `Jobs.update` (selfprivacy_api/jobs/__init__.py).
use selfprivacy_api.Base.{
  err, Result, is_some, ℕ, String, ◌≡◌, ◌∙◌, ap, Bool, true, not, ◌||◌, Option, none, some, str_eq,
  lookup, lookup-insert_self, ok,
}
use selfprivacy_api.Jobs.Model.{JobStatus, created, running, finished, error, Job, Update}
use selfprivacy_api.Jobs.Store.{Entry, JobStore, text_or_none, exists_job, update, job_from_hash}
use selfprivacy_api.Jobs.Lifecycle.{update-jobs, entry_after}

-- The new value where there is one, and else the old one
abbrev given : {A : Type 0} → Option A → A → A
given none old = old
given (some a) old = a

abbrev given_text : Option String → Option String → Option String
given_text none old = text_or_none old
given_text (some t) old = text_or_none (some t)

abbrev pub progress_after : JobStatus → Option ℕ → Option ℕ → Option ℕ
progress_after status (some p) old = some p
progress_after finished none old = some 100
progress_after created none old = old
progress_after running none old = old
progress_after error none old = old

abbrev pub finished_after : JobStatus → ℕ → Option ℕ → Option ℕ
finished_after finished now old = some now
finished_after error now old = some now
finished_after created now old = old
finished_after running now old = old

-- The fields of a job that was read after an update of `j`
pub record IsUpdated (now : ℕ) (u : Update) (j x : Job) : Type 0 where
  pub status_is : x.status ≡ u.status
  pub result_is : x.result ≡ text_or_none u.result
  pub result_args_is : x.result_args ≡ u.result_args
  pub error_text_is : x.error_text ≡ text_or_none u.error_text
  pub error_args_is : x.error_args ≡ u.error_args
  pub progress_is : x.progress ≡ progress_after u.status u.progress j.progress
  pub finished_at_is : x.finished_at ≡ finished_after u.status now j.finished_at
  pub updated_at_is : x.updated_at ≡ now
  pub created_at_is : x.created_at ≡ j.created_at
  pub uid_is : x.uid ≡ j.uid
  pub type_id_is : x.type_id ≡ j.type_id
  pub name_is : x.name ≡ given u.name j.name
  pub description_is : x.description ≡ given u.description j.description
  pub status_text_is : x.status_text ≡ given_text u.status_text j.status_text

-- The texts that a job must have are readable after an update.
abbrev pub stays_readable : Update → Job → Bool
stays_readable u j = not (
    str_eq j.uid "None"
    || str_eq j.type_id "None"
    || str_eq (given u.name j.name) "None"
    || str_eq (given u.description j.description) "None")

stored_after :
    (now : ℕ) (u : Update) (j : Job) (s : JobStore)
    → exists_job j.uid s ≡ true
    → lookup j.uid (update now u j s).1.jobs ≡ some (entry_after now u j (lookup j.uid s.jobs))
stored_after now u j s here =
    ap (lookup j.uid) (update-jobs now u j s ∙ simp here)
    ∙ lookup-insert_self j.uid (entry_after now u j (lookup j.uid s.jobs)) s.jobs

-- A stored job stays stored.
pub exists_job-update :
    (now : ℕ) (u : Update) (j : Job) (s : JobStore)
    → exists_job j.uid s ≡ true
    → exists_job j.uid (update now u j s).1 ≡ true
exists_job-update now u j s here = ap is_some (stored_after now u j s here)

abbrev read_entry : Option Entry → Result String (Option Job)
read_entry o = elim o [
  | none ↦ ok none
  | some e ↦ elim (job_from_hash e.job) [ err e ↦ err e | ok j ↦ ok (some j) ]
]
