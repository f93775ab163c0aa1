-- ===== src/Restic/SecretKept.antt =====
-- No operation of the backupper changes the secret.
use Prim.Native.String.{◌++◌ as str_append}
use selfprivacy_api.Backup.Model.{Snapshot}
use selfprivacy_api.Restic.Json.{contains, value_error, Json, Failure}
use selfprivacy_api.Restic.Secret.{
  restic_command-Holds, unlocked_repo-Holds, bind-Holds, ask-Holds, Holds,
}
use selfprivacy_api.Restic.Download.{
  restored, rm_all_folder_contents, wait_until_success, cleaned, strip_slashes, sync_error,
  join_path, restore_into, empty_folders, raw_verified_restore, restore_once, sync, sync_folders,
}
use selfprivacy_api.Restic.Listing.{listing_of, read_listing, load_snapshots, get_snapshots}
use selfprivacy_api.Restic.Operations.{
  fail_if, could_not_lock, read_lock, stop_reading, erase_repo, lock, output_yielder,
}
use selfprivacy_api.Restic.Command.{
  backend_rclone_args, rclone_repo, args_of, restic_command, ResticBackupper,
}
use selfprivacy_api.Restic.Vault.{Completed, give, on_machine, Call, Machine}
use selfprivacy_api.Base.{
  ◌++◌, ◌>>◌, keep, not, ◌>>=◌, pure, raise_if, Result, Bool, List, String, [], true, false, ◌∷◌,
}

module _ {R : Type 0} (m : Machine R) (p : ResticBackupper) (k : String) where
  stop_reading-Holds :
      {A : Type 0} (command : List String) (q : Bool × Result Failure A)
      → Holds m p k (stop_reading m command q)
  stop_reading-Holds command (true, r) v h = h
  stop_reading-Holds command (false, r) v h = h

  pub output_yielder-Holds : (command : List String) → Holds m p k (output_yielder m command)
  unfolding output_yielder
  output_yielder-Holds command =
      let trim : List String → Call R (List String) =
        λ lines. pure (keep (λ line. not (contains line "NOTICE:")) lines) in
      bind-Holds m p k (on_machine (m.read_lines command)) trim (λ v h. h) (λ _ v h. h)

  pub lock-Holds : Holds m p k (lock m p)
  unfolding lock
  lock-Holds =
      let read : List String → List String → Call R (Unit {0}) =
        λ command lines. stop_reading m command (read_lock lines) in
      let run : List String → Call R (Unit {0}) =
        λ command. output_yielder m command >>= read command in
      let finish : List String → Call R (Unit {0}) =
        λ command v. (could_not_lock (run command v).0, (run command v).1) in
      bind-Holds m p k (restic_command m p (args_of ("check" ∷ [])) []) finish
        (restic_command-Holds m p k (args_of ("check" ∷ [])) [])
        (λ command.
          bind-Holds m p k (output_yielder m command) (read command) (output_yielder-Holds command)
            (λ lines. stop_reading-Holds command (read_lock lines)))

  pub erase_repo-Holds : Holds m p k (erase_repo m p)
  unfolding erase_repo
  erase_repo-Holds =
      let command : List String =
        ("rclone" ∷ "purge" ∷ rclone_repo p ∷ []) ++ backend_rclone_args p in
      let finish : Completed → Call R (Unit {0}) = λ done. give (
        fail_if (not done.returned_zero)
          (value_error (str_append "purge exited with errorcode" done.printed))) in
      bind-Holds m p k (on_machine (m.popen command)) finish (λ v h. h) (λ _ v h. h)

  pub get_snapshots-Holds : Holds m p k (get_snapshots m p)
  unfolding get_snapshots load_snapshots
  get_snapshots-Holds =
      let read : Json → Call R (List Snapshot) =
        λ listing. give (read_listing m.parse_time listing) in
      unlocked_repo-Holds m p k (load_snapshots m p >>= read) (
        bind-Holds m p k (load_snapshots m p) read
          (ask-Holds m p k (args_of ("snapshots" ∷ "--json" ∷ []))
            (λ done. listing_of m.loads done.printed))
          (λ _ v h. h))

  sync-Holds : (src dest : String) → Holds m p k (sync m src dest)
  unfolding sync
  sync-Holds src dest v h =
      let command : List String = "rclone" ∷ "sync" ∷ "-P" ∷ src ∷ dest ∷ [] in
      let read : List String → Call R (Unit {0}) =
        λ lines. stop_reading m command (sync_error lines) in
      let missing : Call R (Unit {0}) =
        raise_if (not (m.exists src v.remote))
          (value_error "source dir for rclone sync must exist") in
      bind-Holds m p k missing (λ _. output_yielder m command >>= read) (λ v h. h)
        (λ _.
          bind-Holds m p k (output_yielder m command) read (output_yielder-Holds command)
            (λ lines. stop_reading-Holds command (sync_error lines)))
        v h

  sync_folders-Holds :
      (root : String) (folders : List String) → Holds m p k (sync_folders m root folders)
  unfolding sync_folders
  sync_folders-Holds root [] v h = h
  sync_folders-Holds root (folder ∷ folders) v h =
      let src : String = join_path root (strip_slashes folder) in
      let missing : Call R (Unit {0}) =
        raise_if (not (m.exists src v.remote)) (value_error (str_append "No such path: " src)) in
      bind-Holds m p k missing (λ _. sync m src folder >> sync_folders m root folders) (λ v h. h)
        (λ _.
          bind-Holds m p k (sync m src folder) (λ _. sync_folders m root folders)
            (sync-Holds src folder) (λ _. sync_folders-Holds root folders))
        v h

  empty_folders-Holds : (folders : List String) → Holds m p k (empty_folders m folders)
  unfolding empty_folders
  empty_folders-Holds [] v h = h
  empty_folders-Holds (folder ∷ folders) v h =
      let clear : Call R (Unit {0}) =
        on_machine (wait_until_success (rm_all_folder_contents m folder) m.rounds) in
      bind-Holds m p k clear (λ _. empty_folders m folders) (λ v h. h)
        (λ _. empty_folders-Holds folders) v h

  raw_verified_restore-Holds :
      (id target : String) → Holds m p k (raw_verified_restore m p id target)
  unfolding raw_verified_restore
  raw_verified_restore-Holds id target =
      ask-Holds m p k (args_of ("restore" ∷ id ∷ "--target" ∷ target ∷ "--verify" ∷ [])) restored

  restore_into-Holds :
      (id : String) (folders : List String) (verify : Bool) (temp_dir : String)
      → Holds m p k (restore_into m p id folders verify temp_dir)
  restore_into-Holds id folders true temp_dir =
      bind-Holds m p k (raw_verified_restore m p id temp_dir) (λ _. sync_folders m temp_dir folders)
        (raw_verified_restore-Holds id temp_dir) (λ _. sync_folders-Holds temp_dir folders)
  restore_into-Holds id folders false temp_dir =
      bind-Holds m p k (empty_folders m folders) (λ _. raw_verified_restore m p id "/")
        (empty_folders-Holds folders) (λ _. raw_verified_restore-Holds id "/")

  pub restore_once-Holds :
      (id : String) (folders : List String) (verify : Bool)
      → Holds m p k (restore_once m p id folders verify)
  unfolding restore_once
  restore_once-Holds id [] verify v h = h
  restore_once-Holds id (folder ∷ folders) verify v h =
      let run : String → Call R (Unit {0}) = λ temp_dir v.
        cleaned m temp_dir (restore_into m p id (folder ∷ folders) verify temp_dir v) in
      bind-Holds m p k (on_machine m.make_temp_dir) run (λ v h. h)
        (λ temp_dir v h. restore_into-Holds id (folder ∷ folders) verify temp_dir v h) v h
