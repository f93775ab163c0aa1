-- ===== src/Jobs/Reach.antt =====
-- The stores that the job operations reach from the empty one, Redis dropping keys in between, where
-- jobs are added as created or running; and `reset`.
use selfprivacy_api.Base.{
  insert, ℕ, String, ◌≡◌, refl, ap, ◌∙◌, inl, inr, false, none, some, List, [], ◌∷◌, map, arith,
  eq_refl, Option-cases, Dict, lookup, erase, values, NodupKeys, insert-NodupKeys, erase-NodupKeys,
  erase_absent, AllEntries, insert-AllEntries, erase-AllEntries, lookup-AllEntries,
}
use selfprivacy_api.Jobs.Model.{JobStatus, is_terminal, Args, Job, Update}
use selfprivacy_api.Jobs.Store.{
  Entry, JobStore, loaded, add, remove, remove_all, reset, update, set_expiration, get_jobs,
}
use selfprivacy_api.Jobs.Lifecycle.{expire-jobs, IsStored, IsValid, update-IsValid}

add-IsValid :
    (uid : String) (now : ℕ) (name type_id description : String) (name_args description_args : Args)
    (status : JobStatus) (status_text : String) (progress : ℕ) (s : JobStore)
    → is_terminal status ≡ false
    → IsValid s
    → IsValid
        (add uid now name type_id description name_args description_args status status_text progress
          s).1
unfolding add
add-IsValid uid now name type_id description name_args description_args status text progress s open_
      v =
    record {
      stored = insert-AllEntries IsStored uid _ s.jobs (refl, rw open_) v.stored;
      once = insert-NodupKeys uid _ s.jobs v.once;
    }

erase-IsValid :
    (uid : String) (s : JobStore) → IsValid s → IsValid (record s { jobs = erase uid s.jobs })
erase-IsValid uid s v = record {
  stored = erase-AllEntries IsStored uid s.jobs v.stored;
  once = erase-NodupKeys uid s.jobs v.once;
}

remove-jobs : (j : Job) (s : JobStore) → (remove j s).jobs ≡ erase j.uid s.jobs
unfolding remove
remove-jobs j s = ground (arith, erase_absent j.uid s.jobs)

remove-progress_logs : (j : Job) (s : JobStore) → (remove j s).progress_logs ≡ s.progress_logs
unfolding remove
remove-progress_logs j s = ground arith

remove-IsValid : (j : Job) (s : JobStore) → IsValid s → IsValid (remove j s)
remove-IsValid j s v = record {
  stored = rw remove-jobs (erase-AllEntries IsStored j.uid s.jobs v.stored);
  once = rw remove-jobs (erase-NodupKeys j.uid s.jobs v.once);
}

timed-IsStored :
    (uid : String) (n : ℕ) (e : Entry) → IsStored uid e → IsStored uid (record e { ttl = some n })
timed-IsStored uid n e h = ground arith

set_expiration-jobs :
    (j : Job) (n : ℕ) (s : JobStore) (e : Entry)
    → lookup j.uid s.jobs ≡ some e
    → (set_expiration j n s).1.jobs ≡ insert j.uid (record e { ttl = some n }) s.jobs
unfolding set_expiration
set_expiration-jobs j n s e here = rw here (expire-jobs j.uid n s e here)

set_expiration_absent :
    (j : Job) (n : ℕ) (s : JobStore) → lookup j.uid s.jobs ≡ none → (set_expiration j n s).1 ≡ s
unfolding set_expiration
set_expiration_absent j n s gone = rw gone

set_expiration-IsValid :
    (j : Job) (n : ℕ) (s : JobStore) → IsValid s → IsValid (set_expiration j n s).1
set_expiration-IsValid j n s v = elim (Option-cases (lookup j.uid s.jobs)) [
  | inl gone ↦ rw (set_expiration_absent j n s gone) v
  | inr (e, here) ↦
      let timed_entry : Entry = record e { ttl = some n } in
      let done = set_expiration-jobs j n s e here in
      record {
        stored = rw done (
            insert-AllEntries IsStored j.uid timed_entry s.jobs
              (timed-IsStored j.uid n e (lookup-AllEntries IsStored j.uid e s.jobs v.stored here))
              v.stored);
        once = rw done (insert-NodupKeys j.uid timed_entry s.jobs v.once);
      }
]

erase_head :
    (k : String) (e : Entry) (d : Dict Entry) → lookup k d ≡ none → erase k ((k, e) ∷ d) ≡ d
unfolding erase
erase_head k e d gone = rw eq_refl (erase_absent k d gone)

-- Removing every listed job of a valid store leaves none.
remove_all-jobs :
    (d : Dict Entry) (s : JobStore)
    → s.jobs ≡ d
    → AllEntries IsStored d
    → NodupKeys d
    → (remove_all (map (λ (e : Entry). loaded e.job) (values d)) s).jobs ≡ []
unfolding loaded
remove_all-jobs [] s same held once = same
remove_all-jobs ((k, e) ∷ d) s same held once =
    let gone : erase e.job.uid s.jobs ≡ d =
      ap (erase e.job.uid) same
      ∙ ap (λ i. erase i ((k, e) ∷ d)) held.0.0
      ∙ erase_head k e d once.0 in
    remove_all-jobs d (remove (loaded e.job) s) (remove-jobs (loaded e.job) s ∙ gone) held.1 once.1

remove_all-progress_logs :
    (js : List Job) (s : JobStore) → (remove_all js s).progress_logs ≡ s.progress_logs
remove_all-progress_logs [] s = refl
remove_all-progress_logs (j ∷ js) s =
    remove_all-progress_logs js (remove j s) ∙ remove-progress_logs j s

-- `Jobs.reset` of a valid store removes every job and every status log; the progress logs stay.
pub reset_clears :
    (s : JobStore)
    → IsValid s
    → (get_jobs (reset s) ≡ [])
      × ((reset s).status_logs ≡ [])
      × ((reset s).progress_logs ≡ s.progress_logs)
unfolding reset get_jobs loaded
reset_clears s v = (
  ap (λ d. map (λ (e : Entry). loaded e.job) (values d))
      (remove_all-jobs s.jobs s refl v.stored v.once),
  refl,
  remove_all-progress_logs (get_jobs s) s,
)

remove_all-IsValid : (js : List Job) (s : JobStore) → IsValid s → IsValid (remove_all js s)
remove_all-IsValid [] s v = v
remove_all-IsValid (j ∷ js) s v = remove_all-IsValid js (remove j s) (remove-IsValid j s v)

reset-IsValid : (s : JobStore) → IsValid s → IsValid (reset s)
unfolding reset
reset-IsValid s v =
    let w = remove_all-IsValid (get_jobs s) s v in record { stored = w.stored; once = w.once }

abbrev empty : JobStore
empty = record { jobs = []; status_logs = []; progress_logs = [] }

-- One call of the controller, or one key that expires. A job is added as created or running: the
-- program adds none as finished or failed, which would leave it without a finishing date and
-- without a time to live.
pub data Step : JobStore → JobStore → Type 0 where
  added_open :
      (uid : String) (now : ℕ) (name type_id description : String)
      (name_args description_args : Args) (status : JobStatus) (status_text : String) (progress : ℕ)
      (s : JobStore)
      → is_terminal status ≡ false
      → Step s
          (add uid now name type_id description name_args description_args status status_text
            progress s).1
  updated : (now : ℕ) (u : Update) (j : Job) (s : JobStore) → Step s (update now u j s).1
  removed : (j : Job) (s : JobStore) → Step s (remove j s)
  timed : (j : Job) (n : ℕ) (s : JobStore) → Step s (set_expiration j n s).1
  cleared : (s : JobStore) → Step s (reset s)
  expired : (uid : String) (s : JobStore) → Step s (record s { jobs = erase uid s.jobs })

pub data Reach : JobStore → Type 0 where
  start : Reach empty
  next : {s t : JobStore} → Reach s → Step s t → Reach t

Step-IsValid : {s t : JobStore} → Step s t → IsValid s → IsValid t
Step-IsValid (added_open uid now n t d na da status text p s open_) v =
    add-IsValid uid now n t d na da status text p s open_ v
Step-IsValid (updated now u j s) v = update-IsValid now u j s v
Step-IsValid (removed j s) v = remove-IsValid j s v
Step-IsValid (timed j n s) v = set_expiration-IsValid j n s v
Step-IsValid (cleared s) v = reset-IsValid s v
Step-IsValid (expired uid s) v = erase-IsValid uid s v

-- In every store that the operations reach from the empty one, where no job is added as finished or
-- failed, each job stands once, at its own uid, and each finished or failed job has its finishing
-- date and will expire.
pub Reach-IsValid : {s : JobStore} → Reach s → IsValid s
Reach-IsValid start = record { stored = tt; once = tt }
Reach-IsValid (next r st) = Step-IsValid st (Reach-IsValid r)
