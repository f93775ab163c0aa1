-- ===== src/Jobs/Lifecycle.antt =====
-- What the job store keeps: a terminal job has its finishing date and a time to live, and an
-- update never brings a removed job back.
use mathlib.Core.Path.{subst}
use selfprivacy_api.Base.{
  ap, ℕ, String, ◌≡◌, refl, ◌∙◌, inl, inr, true, ◌&&◌, ◌||◌, not, Option, none, some, [], ◌∷◌,
  arith, str_eq, eq_iff, if◌then◌else◌, Bool-cases, Option-cases, is_some, Dict, lookup, insert,
  NodupKeys, lookup-insert, lookup-insert_self, insert-NodupKeys, AllEntries, insert-AllEntries,
  lookup-AllEntries,
}
use selfprivacy_api.Jobs.Model.{JobStatus, is_terminal, Job, Update}
use selfprivacy_api.Jobs.Store.{
  job_expiration_seconds, log_progress?, new_progress, ttl_of, Entry, JobStore, loaded, exists_job,
  store_job, expire, log_status_update, log_progress_update, apply_update, update, get_job,
}

-- A stored job stands at its uid; if it is finished or failed it will expire.
abbrev pub IsStored : String → Entry → Type 0
IsStored uid e =
    (e.job.uid ≡ uid)
    × ((not (is_terminal e.job.status) || (is_some e.ttl && is_some e.job.finished_at)) ≡ true)

pub record IsValid (s : JobStore) : Type 0 where
  pub stored : AllEntries IsStored s.jobs
  pub once : NodupKeys s.jobs

log_progress?-jobs : (j : Job) (p : Option ℕ) (s : JobStore) → (log_progress? j p s).jobs ≡ s.jobs
unfolding log_progress_update
log_progress?-jobs j none s = refl
log_progress?-jobs j (some p) s = refl

log_status_update-jobs :
    (j : Job) (status : JobStatus) (s : JobStore) → (log_status_update j status s).jobs ≡ s.jobs
unfolding log_status_update
log_status_update-jobs j status s = refl

store_job-jobs :
    (j : Job) (s : JobStore)
    → (store_job j s).jobs
      ≡ insert j.uid (record { job = j; ttl = ttl_of (lookup j.uid s.jobs) }) s.jobs
unfolding store_job
store_job-jobs j s = refl

pub expire-jobs :
    (uid : String) (n : ℕ) (s : JobStore) (e : Entry)
    → lookup uid s.jobs ≡ some e
    → (expire uid n s).jobs ≡ insert uid (record e { ttl = some n }) s.jobs
unfolding expire
expire-jobs uid n s e h = rw (h, expire)

-- The entry that an update of a stored job leaves behind.
abbrev pub entry_after : ℕ → Update → Job → Option Entry → Entry
entry_after now u j old = record {
  job = apply_update now u j;
  ttl = if is_terminal u.status then some job_expiration_seconds else ttl_of old;
}

insert_twice :
    (uid : String) (a b : Entry) (d : Dict Entry) → insert uid a (insert uid b d) ≡ insert uid a d
unfolding insert
insert_twice uid a b [] = ground (arith, eq_iff uid uid)
insert_twice uid a b ((k, c) ∷ d) =
    ground (arith, eq_iff uid uid, eq_iff k uid, insert_twice uid a b d)

apply_update-uid : (now : ℕ) (u : Update) (j : Job) → (apply_update now u j).uid ≡ j.uid
unfolding apply_update
apply_update-uid now u j = refl

expire-store_job :
    (j : Job) (uid : String) (n : ℕ) (s d : JobStore)
    → j.uid ≡ uid
    → s.jobs ≡ d.jobs
    → (expire uid n (store_job j s)).jobs ≡ insert uid (record { job = j; ttl = some n }) d.jobs
expire-store_job j uid n s d named same =
    let before : Entry = record { job = j; ttl = ttl_of (lookup j.uid s.jobs) } in
    let after : Entry = record { job = j; ttl = some n } in
    subst (λ k. (expire k n (store_job j s)).jobs ≡ insert k after d.jobs) named
      (expire-jobs j.uid n (store_job j s) before
          (rw store_job-jobs (lookup-insert_self j.uid before s.jobs))
        ∙ ap (insert j.uid after) (store_job-jobs j s)
        ∙ insert_twice j.uid after before s.jobs
        ∙ ap (insert j.uid after) same)

-- An update writes the one entry, and only if the key still exists.
pub update-jobs :
    (now : ℕ) (u : Update) (j : Job) (s : JobStore)
    → (update now u j s).1.jobs ≡ (
        if exists_job j.uid s
        then insert j.uid (entry_after now u j (lookup j.uid s.jobs)) s.jobs
        else s.jobs)
unfolding update
update-jobs now u j s =
    let same = log_progress?-jobs j (new_progress j u) s in
    let logged = log_status_update j u.status (log_progress? j (new_progress j u) s) in
    let kept : logged.jobs ≡ s.jobs = log_status_update-jobs j u.status _ ∙ same in
    elim (Bool-cases (exists_job j.uid s)) [
      | inr gone ↦ simp (kept, gone)
      | inl here ↦ elim (Bool-cases (is_terminal u.status)) [
        | inr open_ ↦ simp (kept, here, open_, store_job-jobs, apply_update-uid)
        | inl ended ↦
            simp (kept, here, ended)
              (expire-store_job (apply_update now u j) j.uid job_expiration_seconds logged s
                (apply_update-uid now u j) kept)
      ]
    ]

-- The uid of a job that was stored yields the updated job, any other uid what it did.
pub get_job_after_update :
    (now : ℕ) (u : Update) (j : Job) (s : JobStore) (uid : String)
    → get_job uid (update now u j s).1 ≡ (
        if str_eq j.uid uid && exists_job j.uid s
        then some (loaded (apply_update now u j))
        else get_job uid s)
unfolding get_job
get_job_after_update now u j s uid = elim (Bool-cases (exists_job j.uid s)) [
  | inr gone ↦ ground (arith, update-jobs now u j s)
  | inl here ↦ elim (Bool-cases (str_eq j.uid uid)) [
    | inl same ↦ rw (update-jobs, get_job) (simp (here, lookup-insert, same))
    | inr other ↦ rw (update-jobs, get_job) (simp (here, lookup-insert, other))
  ]
]

-- Finished and failed jobs get a date and a time to live with the update that ends them.
entry_after-IsStored :
    (now : ℕ) (u : Update) (j : Job) (uid : String) (e : Entry)
    → IsStored uid e
    → j.uid ≡ uid
    → IsStored uid (entry_after now u j (some e))
unfolding apply_update
entry_after-IsStored now u j uid e h same = ground arith

pub update-IsValid :
    (now : ℕ) (u : Update) (j : Job) (s : JobStore) → IsValid s → IsValid (update now u j s).1
update-IsValid now u j s v = elim (Option-cases (lookup j.uid s.jobs)) [
  | inl gone ↦
      let same : (update now u j s).1.jobs ≡ s.jobs = ground (arith, update-jobs now u j s) in
      record { stored = rw same v.stored; once = rw same v.once }
  | inr (e, here) ↦
      let written : (update now u j s).1.jobs ≡ insert j.uid (entry_after now u j (some e)) s.jobs =
        update-jobs now u j s ∙ simp here in
      record {
        stored = rw written (
            insert-AllEntries IsStored j.uid _ s.jobs
              (entry_after-IsStored now u j j.uid e
                (lookup-AllEntries IsStored j.uid e s.jobs v.stored here) refl)
              v.stored);
        once = rw written (insert-NodupKeys j.uid _ s.jobs v.once);
      }
]
