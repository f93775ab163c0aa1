-- ===== src/Restic/Operations.antt =====
-- The operations of `ResticBackupper` on the repository
-- (selfprivacy_api/backup/backuppers/restic_backupper.py) but for backups, restores and listings.
use selfprivacy_api.Restic.Vault.{give, Vault, on_machine, Call, Completed, Machine}
use selfprivacy_api.Restic.Command.{
  no_args, nested, word, Args, arg, args_of, ResticBackupper, backend_rclone_args, rclone_repo,
  restic_command,
}
use selfprivacy_api.Restic.Json.{
  failure, json_dict, told, json_get, value_error, Failure, Json, contains, parse_json_output,
}
use Prim.Native.String.{◌++◌ as str_append}
use selfprivacy_api.Base.{
  keep, String, Bool, true, false, not, none, some, List, [], ◌∷◌, ◌++◌, if◌then◌else◌, Result, ok,
  err, pure, ◌>>=◌, ◌>>◌,
}

abbrev pub stale_lock : String
stale_lock = "unable to create lock"

-- An exception raised where another result was expected.
abbrev pub fail_if : Bool → Failure → Result Failure (Unit {0})
fail_if true e = err e
fail_if false e = ok tt

abbrev pub unlocked : Completed → Result Failure (Unit {0})
unlocked done =
    fail_if (not done.returned_zero)
      (value_error (str_append "cannot unlock the backup repository: " done.printed))

abbrev pub checked_repo : Completed → Result Failure Bool
checked_repo done =
    if done.returned_zero
    then ok true
    else if contains done.printed stale_lock
    then err (value_error (str_append "Stale lock detected: " done.printed))
    else ok false

-- How far `lock` reads: some lines end it early, one raises.
unfoldable pub read_lock : List String → (early : Bool) × Result Failure (Unit {0})
unfolding contains
read_lock [] = (false, ok tt)
read_lock (line ∷ lines) =
    let rest = read_lock lines in
    if contains line "indexes"
    then (true, ok tt)
    else if contains line "already locked exclusively"
    then (true, ok tt)
    else if contains line "unable"
    then (true, err (value_error "could not lock repository"))
    else rest

abbrev pub could_not_lock : Result Failure (Unit {0}) → Result Failure (Unit {0})
could_not_lock (ok u) = ok tt
could_not_lock (err e) = err (value_error "could not lock repository")

abbrev size_of : String → Json → Result Failure Json
size_of printed (json_dict d) = elim (json_get "total_size" d) [
  | none ↦ err (failure (str_append "Cannot restore a snapshot: " printed))
  | some size ↦ ok size
]
size_of printed _ = err (failure printed)

abbrev pub size_from : String → Result Failure Json → Result Failure Json
size_from printed (ok j) = size_of printed j
size_from printed (err (value_error e)) =
    err (value_error (str_append "Cannot restore a snapshot: " printed))
size_from printed (err e) = err e

abbrev pub forgotten : Completed → Result Failure (Unit {0})
forgotten done =
    if contains done.complaints "no matching ID found"
    then err (value_error "trying to delete, but no such snapshot(s): ")
    else fail_if (not done.returned_zero) (
        value_error
          (str_append "forget exited with errorcode" (str_append done.printed done.complaints)))

abbrev pub created_repo : Completed → Result Failure (Unit {0})
created_repo done =
    fail_if (not (contains done.printed "created restic repository"))
      (value_error (str_append "cannot init a repo: " done.printed))

module _ {R : Type 0} where
  -- A restic command that is run to its end.
  unfoldable pub run_restic : Machine R → ResticBackupper → Args → Call R Completed
  unfolding restic_command
  run_restic m p xs = do command ← restic_command m p xs []; on_machine (m.popen command)

  -- What the code reads from the end of a restic command.
  unfoldable pub ask :
      {A : Type 0} → Machine R → ResticBackupper → Args → (Completed → Result Failure A) → Call R A
  unfolding run_restic
  ask m p xs read = do done ← run_restic m p xs; give (read done)

  -- `unlock`
  unfoldable pub unlock : Machine R → ResticBackupper → Call R (Unit {0})
  unfolding ask
  unlock m p = ask m p (args_of ("unlock" ∷ [])) unlocked

  -- What the decorator does with the end of the first call.
  abbrev pub retry :
      {A : Type 0}
      → (unlocking : Call R (Unit {0})) → (func : Call R A) → Result Failure A × Vault R
      → Result Failure A × Vault R
  retry unlocking func (ok a, v) = (ok a, v)
  retry unlocking func (err e, v) =
      let again = (unlocking >> func) v in
      if contains (told e) stale_lock then again else (err e, v)

  -- `unlocked_repo`
  unfoldable pub unlocked_repo : {A : Type 0} → Machine R → ResticBackupper → Call R A → Call R A
  unfolding unlock contains
  unlocked_repo m p func v = retry (unlock m p) func (func v)

  -- `init`
  unfoldable pub init_repo : Machine R → ResticBackupper → Call R (Unit {0})
  unfolding ask contains
  init_repo m p = ask m p (args_of ("init" ∷ [])) created_repo

  -- `is_initted`
  unfoldable pub is_initted : Machine R → ResticBackupper → Call R Bool
  unfolding unlocked_repo ask contains
  is_initted m p = unlocked_repo m p (ask m p (args_of ("check" ∷ [])) checked_repo)

  -- `erase_repo`
  unfoldable pub erase_repo : Machine R → ResticBackupper → Call R (Unit {0})
  unfolding rclone_repo backend_rclone_args
  erase_repo m p = do
    done ← on_machine (m.popen (("rclone" ∷ "purge" ∷ rclone_repo p ∷ []) ++ backend_rclone_args p))
    give (
        fail_if (not done.returned_zero)
          (value_error (str_append "purge exited with errorcode" done.printed)))

  -- `output_yielder` of selfprivacy_api/backup/util.py: the lines without the notices
  unfoldable pub output_yielder : Machine R → List String → Call R (List String)
  unfolding contains
  output_yielder m command = do
    lines ← on_machine (m.read_lines command)
    pure (keep (λ line. not (contains line "NOTICE:")) lines)

  -- A reader that stops early has the program killed.
  abbrev pub stop_reading :
      {A : Type 0} → Machine R → List String → (early : Bool) × Result Failure A → Call R A
  stop_reading m command (early, r) v =
      (r, if early then record v { remote = m.kill command v.remote } else v)

  -- `lock`
  unfoldable pub lock : Machine R → ResticBackupper → Call R (Unit {0})
  unfolding restic_command output_yielder read_lock
  lock m p = do
    command ← restic_command m p (args_of ("check" ∷ [])) []
    λ v.
        let q =
          (output_yielder m command >>= λ lines. stop_reading m command (read_lock lines)) v in
        (could_not_lock q.0, q.1)

  -- `restored_size`
  unfoldable pub restored_size : Machine R → ResticBackupper → (snapshot_id : String) → Call R Json
  unfolding unlocked_repo ask parse_json_output json_get
  restored_size m p snapshot_id = unlocked_repo m p (
      ask m p (args_of ("stats" ∷ snapshot_id ∷ "--json" ∷ []))
        (λ done. size_from done.printed (parse_json_output m.loads done.printed)))

  -- `forget_snapshots`
  unfoldable pub forget_snapshots :
      Machine R → ResticBackupper → (snapshot_ids : List String) → Call R (Unit {0})
  unfolding unlocked_repo ask contains
  forget_snapshots m p snapshot_ids = unlocked_repo m p (
      ask m p
        (arg (word "forget") (
          arg (nested (arg (nested (args_of snapshot_ids)) no_args))
            (arg (word "--prune") no_args)))
        forgotten)

  -- `forget_snapshot`
  unfoldable pub forget_snapshot :
      Machine R → ResticBackupper → (snapshot_id : String) → Call R (Unit {0})
  unfolding forget_snapshots
  forget_snapshot m p snapshot_id = forget_snapshots m p (snapshot_id ∷ [])
