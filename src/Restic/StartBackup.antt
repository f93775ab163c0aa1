-- ===== src/Restic/StartBackup.antt =====
-- `_run_backup_command`, `_get_backup_job` and `start_backup` of
-- selfprivacy_api/backup/backuppers/restic_backupper.py, over the server and the machine.
use selfprivacy_api.Restic.Listing.{reason_value}
use selfprivacy_api.Restic.Command.{
  no_args, args_of, nested, word, arg, ResticBackupper, censor_command, restic_command,
}
use selfprivacy_api.Jobs.Model.{Job}
use selfprivacy_api.Restic.Upload.{
  Progress, concat_lines, unless_reported, read_messages, snapshot_id_from_backup_messages,
}
use selfprivacy_api.Restic.Operations.{stale_lock, output_yielder, unlock}
use selfprivacy_api.Restic.Json.{failure, told, Json, contains, value_error, Failure}
use selfprivacy_api.Restic.Vault.{Call, Machine, Vault}
use Prim.Native.String.{◌++◌ as str_append}
use selfprivacy_api.Base.{
  String, Bool, true, false, Option, none, some, List, [], ◌∷◌, if◌then◌else◌, Result, ok, err,
  Action, pure, raise, ◌>>=◌, ◌>>◌, raise_if,
}
use selfprivacy_api.Backup.Model.{BackupReason, Snapshot}
use selfprivacy_api.Backup.ServiceJobs.{Service, get_backup_job}
use selfprivacy_api.Backup.Run.{World}

-- A method that runs on the server
abbrev pub OnServer : Type 0 → Type 0 → Type 0
OnServer R A = Action (World (Vault R)) Failure A

abbrev pub could_not_create : (e : String) → (censored : List String) → Failure
could_not_create e censored = value_error (
    str_append "Could not create a snapshot: "
      (str_append e (str_append "command: " (concat_lines censored))))

abbrev pub is_empty : List String → Bool
is_empty [] = true
is_empty (_ ∷ _) = false

module _ {R : Type 0} where
  abbrev pub on_vault : {A : Type 0} → Call R A → OnServer R A
  on_vault f w = ((f w.remote).0, record w { remote = (f w.remote).1 })

  abbrev pub answer : {A : Type 0} → Result Failure A → OnServer R A
  answer r w = (r, w)

  -- The jobs are written back however the reading ends; if it raises, the program is killed.
  abbrev pub after_reading :
      Machine R
      → (command : List String) → Result Failure (Bool × List Json) × Progress
      → OnServer R (Bool × List Json)
  after_reading m command (ok messages, (job, jobs)) w =
      (ok messages, record w { server = record w.server { jobs = jobs } })
  after_reading m command (err e, (job, jobs)) w = (
    err e,
    record w {
      server = record w.server { jobs = jobs };
      remote = record w.remote { remote = m.kill command w.remote.remote };
    },
  )

  -- `_run_backup_command`
  unfoldable pub run_backup_command :
      Machine R → (command : List String) → Option Job → OnServer R (List Json)
  unfolding output_yielder read_messages
  run_backup_command m command job = do
    lines ← on_vault (output_yielder m command)
    messages ← λ w. after_reading m command (read_messages m false lines (job, w.server.jobs)) w
    answer (unless_reported lines messages)

  abbrev snapshot_of : Machine R → (service_name id : String) → BackupReason → Snapshot
  snapshot_of m service_name id reason = record {
    id = id;
    service_name = service_name;
    created_at = m.now;
    reason = reason;
  }

  -- The block under `try`
  unfoldable pub upload :
      Machine R
      → (service_name : String) → BackupReason
      → (command : List String) → Option Job
      → OnServer R Snapshot
  unfolding run_backup_command snapshot_id_from_backup_messages
  upload m service_name reason command job = do
    messages ← run_backup_command m command job
    id ← answer (snapshot_id_from_backup_messages messages)
    pure (snapshot_of m service_name id reason)

  -- `except ValueError`: the text has the command with the key and the secret hidden.
  abbrev pub hiding_command :
      {A : Type 0}
      → Machine R
      → ResticBackupper
      → (command : List String) → Result Failure A × World (Vault R)
      → Result Failure A × World (Vault R)
  hiding_command m p command (err (value_error e), w) =
      on_vault (do censored ← censor_command m p command; raise (could_not_create e censored)) w
  hiding_command m p command (r, w) = (r, w)

  -- `_get_backup_job`
  unfoldable pub backup_job :
      (find_service : String → Option Service) → (service_name : String) → OnServer R (Option Job)
  unfolding get_backup_job
  backup_job find_service service_name w = elim (find_service service_name) [
    | none ↦ (err (value_error (str_append "No service with id " service_name)), w)
    | some service ↦ (ok (get_backup_job w.server.job_eq service w.server.jobs), w)
  ]

  -- `start_backup` without its decorator
  unfoldable pub start_backup_once :
      Machine R
      → ResticBackupper
      → (find_service : String → Option Service) → (folders : List String) → (service_name : String)
      → BackupReason
      → OnServer R Snapshot
  unfolding backup_job restic_command upload censor_command
  start_backup_once m p find_service folders service_name reason = do
    raise_if (is_empty folders) (failure "")
    job ← backup_job find_service service_name
    command ← on_vault (
        restic_command m p
          (arg (word "backup") (arg (word "--json") (arg (nested (args_of folders)) no_args)))
          (service_name ∷ reason_value reason ∷ []))
    λ w. hiding_command m p command (upload m service_name reason command job w)

  abbrev pub retry_on_server :
      {A : Type 0}
      → (unlocking : OnServer R (Unit {0})) → (func : OnServer R A)
      → Result Failure A × World (Vault R)
      → Result Failure A × World (Vault R)
  retry_on_server unlocking func (ok a, w) = (ok a, w)
  retry_on_server unlocking func (err e, w) =
      let again = (unlocking >> func) w in
      if contains (told e) stale_lock then again else (err e, w)

  -- `start_backup`
  unfoldable pub start_backup :
      Machine R
      → ResticBackupper
      → (find_service : String → Option Service) → (folders : List String) → (service_name : String)
      → BackupReason
      → OnServer R Snapshot
  unfolding start_backup_once unlock contains
  start_backup m p find_service folders service_name reason w =
      retry_on_server (on_vault (unlock m p))
        (start_backup_once m p find_service folders service_name reason)
        (start_backup_once m p find_service folders service_name reason w)
