-- ===== src/Restic/Download.antt =====
-- Restoring with restic: `restore_from_backup`, `_raw_verified_restore` and
-- `_rm_all_folder_contents` of selfprivacy_api/backup/backuppers/restic_backupper.py, `sync` of
-- selfprivacy_api/backup/util.py, and `wait_until_success` of selfprivacy_api/utils/waitloop.py.
use selfprivacy_api.Restic.Command.{args_of, ResticBackupper}
use selfprivacy_api.Restic.Operations.{ask, fail_if, stop_reading, output_yielder, unlocked_repo}
use selfprivacy_api.Restic.Json.{failure, value_error, Failure, contains}
use selfprivacy_api.Restic.Vault.{on_machine, Call, Vault, Completed, Machine}
use Prim.Native.Char.{code}
use Prim.Native.String.{◌++◌ as str_append}
use selfprivacy_api.Base.{
  ◌==◌, ◌&&◌, ℕ, zero, suc, String, Bool, true, false, not, List, [], ◌∷◌, if◌then◌else◌, Result,
  ok, err, pure, raise, gets, ◌>>=◌, ◌>>◌, raise_if,
}

-- `os.path.join(root, name)` for a name without and a root without a slash at the join
abbrev pub join_path : (root name : String) → String
join_path root name = str_append root (str_append "/" name)

-- `path.lstrip("/")`
unfoldable pub strip_left : String → String
strip_left String.[] = ""
strip_left (String.◌∷◌ c s) =
    let rest = strip_left s in if code c == 47 then rest else String.◌∷◌ c s

abbrev is_empty_text : String → Bool
is_empty_text String.[] = true
is_empty_text (String.◌∷◌ _ _) = false

-- `path.rstrip("/")`
unfoldable pub strip_right : String → String
strip_right String.[] = ""
strip_right (String.◌∷◌ c s) =
    let rest = strip_right s in if is_empty_text rest && code c == 47 then "" else String.◌∷◌ c rest

-- `folder.strip("/")`
abbrev pub strip_slashes : String → String
strip_slashes folder = strip_right (strip_left folder)

abbrev pub restored : Completed → Result Failure (Unit {0})
restored done =
    if not (contains done.printed "restoring")
    then err (value_error (str_append "cannot restore a snapshot: " done.printed))
    else fail_if (not done.returned_zero)
        (value_error (str_append "restore exited with errorcode" done.printed))

-- Of the lines of rclone, the first with an error
unfoldable pub sync_error : List String → (early : Bool) × Result Failure (Unit {0})
unfolding contains
sync_error [] = (false, ok tt)
sync_error (line ∷ lines) =
    let rest = sync_error lines in
    if contains line "ERROR" then (true, err (value_error line)) else rest

abbrev pub timed_out : Failure
timed_out = failure "timed out on an operation"

module _ {R : Type 0} where
  -- `sync`
  unfoldable pub sync : Machine R → (src_path dest_path : String) → Call R (Unit {0})
  unfolding output_yielder sync_error
  sync m src_path dest_path = do
    there ← gets (λ v. m.exists src_path v.remote)
    raise_if (not there) (value_error "source dir for rclone sync must exist")
    let command : List String = "rclone" ∷ "sync" ∷ "-P" ∷ src_path ∷ dest_path ∷ []
    lines ← output_yielder m command
    stop_reading m command (sync_error lines)

  -- `_raw_verified_restore`
  unfoldable pub raw_verified_restore :
      Machine R → ResticBackupper → (snapshot_id target : String) → Call R (Unit {0})
  unfolding ask contains
  raw_verified_restore m p snapshot_id target =
      ask m p (args_of ("restore" ∷ snapshot_id ∷ "--target" ∷ target ∷ "--verify" ∷ [])) restored

  abbrev pub in_other_words :
      Failure → Result Failure (Unit {0}) × R → Result Failure (Unit {0}) × R
  in_other_words e (ok u, x) = (ok tt, x)
  in_other_words e (err _, x) = (err e, x)

  -- One name of a folder; a path that is neither a file nor a folder is left.
  unfoldable pub remove_path : Machine R → (path : String) → R → Result Failure (Unit {0}) × R
  remove_path m path x =
      let unlinked = m.unlink path x in
      let removed = m.rmtree path x in
      in_other_words (value_error (str_append "Cannot remove folder contents: " path)) (
        if m.is_file_or_link path x
        then unlinked
        else if m.is_dir path x
        then removed
        else (ok tt, x))

  unfoldable pub remove_names :
      Machine R → (folder : String) → List String → R → Result Failure (Unit {0}) × R
  unfolding remove_path
  remove_names m folder [] = pure tt
  remove_names m folder (name ∷ names) =
      remove_path m (join_path folder name) >> remove_names m folder names

  abbrev listed :
      Machine R
      → (folder : String) → Result Failure (List String) × R
      → Result Failure (Unit {0}) × R
  listed m folder (ok names, x) = remove_names m folder names x
  listed m folder (err e, x) = (err (value_error (str_append "Cannot access folder: " folder)), x)

  -- `_rm_all_folder_contents`
  unfoldable pub rm_all_folder_contents :
      Machine R → (folder : String) → R → Result Failure (Unit {0}) × R
  unfolding remove_names
  rm_all_folder_contents m folder x = listed m folder (m.listdir folder x)

  -- The loop of `wait_until_success`, from the end of a try; `left` is the number of intervals
  -- until the time limit. At the limit a success counts as a failure too.
  unfoldable pub wait_loop :
      (operation : R → Result Failure (Unit {0}) × R)
      → (left : ℕ) → Result Failure (Unit {0}) × R
      → Result Failure (Unit {0}) × R
  wait_loop operation zero (r, x) = (err timed_out, x)
  wait_loop operation (suc left) (ok u, x) = (ok tt, x)
  wait_loop operation (suc left) (err e, x) = wait_loop operation left (operation x)

  unfoldable pub wait_until_success :
      (operation : R → Result Failure (Unit {0}) × R)
      → (rounds : ℕ) → R
      → Result Failure (Unit {0}) × R
  unfolding wait_loop
  wait_until_success operation rounds x = wait_loop operation rounds (operation x)

  -- The folders are copied over from the temporary folder, one after the other.
  unfoldable pub sync_folders :
      Machine R → (root : String) → (folders : List String) → Call R (Unit {0})
  unfolding sync strip_left strip_right
  sync_folders m root [] = pure tt
  sync_folders m root (folder ∷ folders) = do
    let src : String = join_path root (strip_slashes folder)
    there ← gets (λ v. m.exists src v.remote)
    raise_if (not there) (value_error (str_append "No such path: " src))
    sync m src folder
    sync_folders m root folders

  unfoldable pub empty_folders : Machine R → (folders : List String) → Call R (Unit {0})
  unfolding rm_all_folder_contents wait_until_success
  empty_folders m [] = pure tt
  empty_folders m (folder ∷ folders) =
      on_machine (wait_until_success (rm_all_folder_contents m folder) m.rounds)
      >> empty_folders m folders

  abbrev pub restore_into :
      Machine R
      → ResticBackupper
      → (snapshot_id : String) → (folders : List String) → (verify : Bool) → (temp_dir : String)
      → Call R (Unit {0})
  restore_into m p snapshot_id folders true temp_dir =
      raw_verified_restore m p snapshot_id temp_dir >> sync_folders m temp_dir folders
  restore_into m p snapshot_id folders false temp_dir =
      empty_folders m folders >> raw_verified_restore m p snapshot_id "/"

  -- The end of `with tempfile.TemporaryDirectory()`
  abbrev pub cleaned :
      Machine R
      → (temp_dir : String) → Result Failure (Unit {0}) × Vault R
      → Result Failure (Unit {0}) × Vault R
  cleaned m temp_dir (r, v) = (r, record v { remote = m.remove_temp_dir temp_dir v.remote })

  -- `restore_from_backup` without its decorator
  unfoldable pub restore_once :
      Machine R
      → ResticBackupper
      → (snapshot_id : String) → (folders : List String) → (verify : Bool) → Call R (Unit {0})
  unfolding raw_verified_restore sync_folders empty_folders
  restore_once m p snapshot_id [] verify =
      raise (value_error "Cannot restore without knowing where to!")
  restore_once m p snapshot_id (folder ∷ folders) verify = do
    temp_dir ← on_machine m.make_temp_dir
    λ v. cleaned m temp_dir (restore_into m p snapshot_id (folder ∷ folders) verify temp_dir v)

  -- `restore_from_backup`
  unfoldable pub restore_from_backup :
      Machine R
      → ResticBackupper
      → (snapshot_id : String) → (folders : List String) → (verify : Bool) → Call R (Unit {0})
  unfolding restore_once unlocked_repo
  restore_from_backup m p snapshot_id folders verify =
      unlocked_repo m p (restore_once m p snapshot_id folders verify)
