-- ===== src/Restic/Upload.antt =====
-- A backup with restic: `_run_backup_command`, `parse_message`, `_snapshot_id_from_backup_messages`
-- and `start_backup` of selfprivacy_api/backup/backuppers/restic_backupper.py.
use selfprivacy_api.Restic.Vault.{Machine}
use selfprivacy_api.Restic.Json.{
  failure, json_number, json_text, json_dict, value_error, Failure, Json, contains, json_get,
  parse_json_output,
}
use selfprivacy_api.Jobs.Store.{JobStore, update}
use Prim.Native.String.{◌++◌ as str_append}
use selfprivacy_api.Base.{
  str_eq, is_some, ℕ, zero, suc, String, Bool, true, false, not, Option, none, some, List, [], ◌∷◌,
  ◌||◌, if◌then◌else◌, Result, ok, err, Action, pure, raise, ◌>>=◌, ◌>>◌,
}
use selfprivacy_api.Jobs.Model.{running, Job, Update, update_of}

-- The job of the backup, as it was read from the store, and the store
abbrev pub Progress : Type 0
Progress = Option Job × JobStore

abbrev at_percent : ℕ → Update
at_percent percent = record (update_of running) { progress = some percent }

-- `Jobs.update(job, ...)` if there is a job
unfoldable pub tell_progress : (now percent : ℕ) → Progress → Progress
unfolding update
tell_progress now percent (none, jobs) = (none, jobs)
tell_progress now percent (some job, jobs) =
    let (job', jobs') = update now (at_percent percent) job jobs in (some job', jobs')

abbrev pub short_id_len : ℕ
short_id_len = 8

-- `t[0:n]`
unfoldable pub take_chars : ℕ → String → String
take_chars zero t = ""
take_chars (suc n) String.[] = ""
take_chars (suc n) (String.◌∷◌ c t) = String.◌∷◌ c (take_chars n t)

-- `message["message_type"] == kind`
unfoldable pub is_message : (kind : String) → Json → Bool
unfolding json_get
is_message kind (json_dict d) = elim (json_get "message_type" d) [
  | some (json_text t) ↦ str_eq t kind
  | _ ↦ false
]
is_message kind _ = false

abbrev pub has_type : Json → Bool
has_type (json_dict d) = is_some (json_get "message_type" d)
has_type _ = false

abbrev pub shortened : Option Json → Result Failure String
shortened (some (json_text t)) = ok (take_chars short_id_len t)
shortened _ = err (failure "snapshot_id")

-- `message["snapshot_id"][0:SHORT_ID_LEN]`
unfoldable pub short_id_of : Json → Result Failure String
unfolding json_get take_chars
short_id_of (json_dict d) = shortened (json_get "snapshot_id" d)
short_id_of _ = err (failure "snapshot_id")

-- `_snapshot_id_from_backup_messages`
unfoldable pub snapshot_id_from_backup_messages : List Json → Result Failure String
unfolding is_message short_id_of
snapshot_id_from_backup_messages [] =
    err (value_error "no summary message in restic json output, messages: ")
snapshot_id_from_backup_messages (message ∷ messages) =
    let rest = snapshot_id_from_backup_messages messages in
    if is_message "summary" message then short_id_of message else rest

abbrev pub concat_lines : List String → String
concat_lines [] = ""
concat_lines (x ∷ xs) = str_append x (concat_lines xs)

-- What follows the loop of `_run_backup_command`
abbrev pub unless_reported : (lines : List String) → Bool × List Json → Result Failure (List Json)
unless_reported lines (true, messages) =
    err (value_error (str_append "Restic returned error(s): " (concat_lines lines)))
unless_reported lines (false, messages) = ok messages

module _ {R : Type 0} where
  abbrev percent_of : Machine R → Json → Result Failure ℕ
  percent_of m (json_dict d) = elim (json_get "percent_done" d) [
    | some (json_number x) ↦ ok (m.percent x)
    | _ ↦ err (failure "percent_done")
  ]
  percent_of m _ = err (failure "percent_done")

  abbrev tell : Machine R → Result Failure ℕ → Action Progress Failure (Unit {0})
  tell m (ok percent) s = (ok tt, tell_progress m.now percent s)
  tell m (err e) s = (err e, s)

  abbrev report_status : Machine R → Json → Action Progress Failure (Unit {0})
  report_status m message (none, jobs) = (ok tt, (none, jobs))
  report_status m message (some job, jobs) = tell m (percent_of m message) (some job, jobs)

  abbrev parsed_message : Machine R → Result Failure Json → Action Progress Failure Json
  parsed_message m (err e) = raise e
  parsed_message m (ok (json_dict d)) =
      let message = json_dict d in
      if not (has_type message)
      then raise (failure "message_type")
      else if is_message "status" message
      then report_status m message >> pure message
      else pure message
  parsed_message m (ok _) = raise (value_error "we have too many messages on one line?")

  -- `parse_message`
  unfoldable pub parse_message : Machine R → (raw : String) → Action Progress Failure Json
  unfolding parse_json_output json_get is_message tell_progress
  parse_message m raw = parsed_message m (parse_json_output m.loads raw)

  -- The loop of `_run_backup_command`: after a line with an error nothing is parsed.
  unfoldable pub read_messages :
      Machine R → (reported : Bool) → List String → Action Progress Failure (Bool × List Json)
  unfolding parse_message contains
  read_messages m reported [] = pure (reported, [])
  read_messages m reported (raw ∷ raws) =
      let silent = read_messages m true raws in
      let parsing = read_messages m false raws in
      if reported || contains raw "ERROR:" then silent else do
        message ← parse_message m raw
        (failed, messages) ← parsing
        pure (failed, message ∷ messages)
