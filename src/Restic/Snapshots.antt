-- ===== src/Restic/Snapshots.antt =====
-- What is known of a snapshot that `start_backup` returns.
use Prim.Native.String.{◌++◌ as str_append}
use mathlib.Core.Path.{subst}
use selfprivacy_api.Restic.Operations.{stale_lock, unlock}
use selfprivacy_api.Jobs.Model.{Job}
use selfprivacy_api.Restic.Listing.{reason_value}
use selfprivacy_api.Restic.Reported.{ok-injective, err-ne-ok, upload-Uploaded, Uploaded}
use selfprivacy_api.Restic.StartBackup.{
  is_empty, could_not_create, retry_on_server, backup_job, on_vault, upload, OnServer,
  hiding_command, start_backup, start_backup_once,
}
use selfprivacy_api.Backup.Run.{World}
use selfprivacy_api.Backup.Model.{BackupReason, Snapshot}
use selfprivacy_api.Backup.ServiceJobs.{Service}
use selfprivacy_api.Restic.Json.{value_error, told, contains, type_error, failure, Failure}
use selfprivacy_api.Restic.Command.{
  command_line, censor_command, no_args, args_of, nested, word, arg, flatten_list, rclone_args,
  restic_repo, restic_command, Args, ResticBackupper,
}
use selfprivacy_api.Restic.Vault.{
  get_secret, on_machine, restic_password_file, password_file, Call, Vault, Machine,
}
use selfprivacy_api.Base.{
  pure, sym, Bool, true, false, ◌++◌, ◌∙◌, refl, Option-cases, Bool-cases, raise, ◌⊎◌, raise_if,
  bind-inv, ◌>>=◌, Option, Result, List, String, ◌≡◌, [], inl, inr, ok, err, ◌∷◌, ap,
}

module _ {R : Type 0} (m : Machine R) (p : ResticBackupper) where
  hiding_command-ok :
      (command : List String) (q : Result Failure Snapshot × World (Vault R)) (w' : World (Vault R))
      (snap : Snapshot)
      → hiding_command m p command q ≡ (ok snap, w')
      → q ≡ (ok snap, w')
  hiding_command-ok command (ok s, w) w' snap h = h
  hiding_command-ok command (err (type_error e), w) w' snap h = h
  hiding_command-ok command (err (failure e), w) w' snap h = h
  hiding_command-ok command (err (value_error e), w) w' snap h =
      let censor : Call R (List String) = censor_command m p command in
      let tell : List String → Call R Snapshot = λ censored. raise (could_not_create e censored) in
      let end = (censor >>= tell) w.remote in
      let first = ap (λ (r : Result Failure Snapshot × World (Vault R)). r.0) h in
      let (censored, v, run1, run2) =
        bind-inv censor tell {s = w.remote}
          (ap (λ (r : Result Failure Snapshot). (r, end.1)) first) in
      absurd (
        err-ne-ok (could_not_create e censored) snap
          (ap (λ (r : Result Failure Snapshot × Vault R). r.0) run2))

  -- What the decorated call returned, one of its two runs returned.
  retry_on_server-ok :
      (unlocking : OnServer R (Unit {0})) (func : OnServer R Snapshot)
      (q : Result Failure Snapshot × World (Vault R)) (w' : World (Vault R)) (snap : Snapshot)
      → retry_on_server unlocking func q ≡ (ok snap, w')
      → (q ≡ (ok snap, w'))
        ⊎ ((e : Failure) × (q.0 ≡ err e)
            × (contains (told e) stale_lock ≡ true)
            × (w : World (Vault R)) × (unlocking q.1 ≡ (ok tt, w))
            × (func w ≡ (ok snap, w')))
  retry_on_server-ok unlocking func (ok s, w) w' snap h = inl h
  retry_on_server-ok unlocking func (err e, w) w' snap h =
      elim (Bool-cases (contains (told e) stale_lock)) [
        | inl stale ↦
            let (u, w1, run1, run2) = bind-inv unlocking (λ _. func) {s = w} (rw stale at h) in
            inr (e, refl, stale, w1, run1, run2)
        | inr live ↦ absurd (
            err-ne-ok e snap
              (ap (λ (r : Result Failure Snapshot × World (Vault R)). r.0) (rw live at h)))
      ]

  password_file-path :
      (path : String) (u v : Vault R)
      → password_file m u ≡ (ok path, v)
      → path ≡ restic_password_file
  unfolding password_file
  password_file-path path u v run =
      let named : Unit {0} → Call R String = λ _. pure restic_password_file in
      let write : String → Call R String =
        λ secret. on_machine (m.write_password_file (str_append secret "\n")) >>= named in
      let (secret, v1, run1, run2) = bind-inv (get_secret m) write {s = u} run in
      let (_, v2, run3, run4) =
        bind-inv (on_machine (m.write_password_file (str_append secret "\n"))) named run2 in
      sym (ok-injective (ap (λ (q : Result Failure String × Vault R). q.0) run4))

  flatten_list-args_of : (xs : List String) → flatten_list (args_of xs) ++ [] ≡ xs
  unfolding flatten_list
  flatten_list-args_of [] = refl
  flatten_list-args_of (x ∷ xs) = ap (λ ys. x ∷ ys) (flatten_list-args_of xs)

  raise_if-remote :
      (b : Bool) (e : Failure) (w w' : World (Vault R)) (u : Unit {0})
      → raise_if b e w ≡ (ok u, w')
      → w'.remote ≡ w.remote
  raise_if-remote true e w w' u run =
      absurd (err-ne-ok e u (ap (λ (q : Result Failure (Unit {0}) × World (Vault R)). q.0) run))
  raise_if-remote false e w w' u run =
      sym (ap (λ (q : Result Failure (Unit {0}) × World (Vault R)). q.1.remote) run)

  backup_job-remote :
      (find_service : String → Option Service) (name : String) (w w' : World (Vault R))
      (job : Option Job)
      → backup_job find_service name w ≡ (ok job, w')
      → w'.remote ≡ w.remote
  unfolding backup_job
  backup_job-remote find_service name w w' job run = elim (Option-cases (find_service name)) [
    | inl missing ↦ absurd (
        err-ne-ok _ job (
          ap (λ (q : Result Failure (Option Job) × World (Vault R)). q.0)
            (rw (missing, backup_job) at run)))
    | inr (service, found) ↦ sym (
        ap (λ (q : Result Failure (Option Job) × World (Vault R)). q.1.remote)
          (rw (found, backup_job) at run))
  ]

  module _ (find_service : String → Option Service) (folders : List String) (name : String)
      (reason : BackupReason) where
    -- The command that uploads some folders
    abbrev pub upload_command_of : List String → List String
    upload_command_of xs =
        "restic"
        ∷ "-o"
        ∷ rclone_args p
        ∷ "-r"
        ∷ restic_repo p
        ∷ "--password-file"
        ∷ "/run/selfprivacy-api/restic-password"
        ∷ "--tag"
        ∷ name
        ∷ "--tag"
        ∷ reason_value reason
        ∷ "backup"
        ∷ "--json"
        ∷ xs

    abbrev pub upload_command : List String
    upload_command = upload_command_of folders

    upload_args : Args
    upload_args = arg (word "backup") (arg (word "--json") (arg (nested (args_of folders)) no_args))

    tags : List String
    tags = name ∷ reason_value reason ∷ []

    restic_command-ok :
        (command : List String) (u v : Vault R)
        → restic_command m p upload_args tags u ≡ (ok command, v)
        → (password_file m u ≡ (ok "/run/selfprivacy-api/restic-password", v))
          × (command ≡ upload_command)
    unfolding restic_command password_file upload_args tags flatten_list
    restic_command-ok command u v run =
        let build : String → Call R (List String) = command_line p upload_args tags in
        let (path, v1, run1, run2) = bind-inv (password_file m) build {s = u} run in
        let named = password_file-path path u v1 run1 in
        let end = ap (λ (q : Result Failure (List String) × Vault R). q.1) run2 in
        let made = ok-injective (ap (λ (q : Result Failure (List String) × Vault R). q.0) run2) in
        (
          run1
              ∙ ap (λ (t : String). (ok t, v1)) named
              ∙ ap (λ (x : Vault R). (ok restic_password_file, x)) end,
          sym made
              ∙ ap
                  (λ (t : String).
                    "restic"
                      ∷ "-o"
                      ∷ rclone_args p
                      ∷ "-r"
                      ∷ restic_repo p
                      ∷ "--password-file"
                      ∷ t
                      ∷ "--tag"
                      ∷ name
                      ∷ "--tag"
                      ∷ reason_value reason
                      ∷ "backup"
                      ∷ "--json"
                      ∷ flatten_list (args_of folders)
                    ++ [])
                  named
              ∙ ap upload_command_of (flatten_list-args_of folders),
        )

    -- A run of restic from a vault: the password file was written, and then the upload was run.
    abbrev pub Ran : Snapshot → (start after : Vault R) → Type 0
    Ran snap start after =
        (v : Vault R) × (password_file m start ≡ (ok "/run/selfprivacy-api/restic-password", v))
        × Uploaded m upload_command name reason snap v after

    start_backup_once-Ran :
        (w w' : World (Vault R)) (snap : Snapshot)
        → start_backup_once m p find_service folders name reason w ≡ (ok snap, w')
        → Ran snap w.remote w'.remote
    unfolding start_backup_once backup_job upload_args tags
    start_backup_once-Ran w w' snap run =
        let send : Option Job → List String → OnServer R Snapshot =
          λ job command w. hiding_command m p command (upload m name reason command job w) in
        let build : Option Job → OnServer R Snapshot =
          λ job. on_vault (restic_command m p upload_args tags) >>= send job in
        let look : Unit {0} → OnServer R Snapshot = λ _. backup_job find_service name >>= build in
        let (u, w1, run1, run2) = bind-inv (raise_if (is_empty folders) (failure "")) look run in
        let (job, w2, run3, run4) = bind-inv (backup_job find_service name) build run2 in
        let (command, w3, run5, run6) =
          bind-inv (on_vault (restic_command m p upload_args tags)) (send job) run4 in
        let same =
          backup_job-remote find_service name w1 w2 job run3
          ∙ raise_if-remote (is_empty folders) (failure "") w w1 u run1 in
        let (written, made) =
          restic_command-ok command w2.remote w3.remote
            (ap (λ (q : Result Failure (List String) × World (Vault R)). (q.0, q.1.remote)) run5) in
        let sent =
          upload-Uploaded m name reason command job w3 w' snap
            (hiding_command-ok command (upload m name reason command job w3) w' snap run6) in
        (
          w3.remote,
          ap (password_file m) (sym same) ∙ written,
          subst (λ c. Uploaded m c name reason snap w3.remote w'.remote) made sent,
        )

    -- Where a backup that returns a snapshot started from: the vault it was called with, or the one
    -- that unlocking left after a first run had met a stale lock.
    abbrev pub Began : (w : World (Vault R)) → Vault R → Type 0
    Began w start =
        (start ≡ w.remote)
        ⊎ ((e : Failure) × ((start_backup_once m p find_service folders name reason w).0 ≡ err e)
            × (contains (told e) "unable to create lock" ≡ true)
            × (unlock m p (start_backup_once m p find_service folders name reason w).1.remote
                ≡ (ok tt, start)))

    -- A backup that returns a snapshot wrote the password file and then ran restic, on the machine as
    -- it then was, as `restic backup` with the arguments of the repository, the service and the value
    -- of the reason as its two tags, and the folders; this run was the last that happened; of the
    -- lines that it printed, the notices aside, none has the text "ERROR:"; and the snapshot has the
    -- service, the reason, and an id of at most eight characters. The run started from the state of
    -- the call, or from the one that unlocking left after a first run had met a stale lock.
    pub start_backup-Ran :
        (w w' : World (Vault R)) (snap : Snapshot)
        → start_backup m p find_service folders name reason w ≡ (ok snap, w')
        → (start : Vault R) × Began w start × Ran snap start w'.remote
    unfolding start_backup
    start_backup-Ran w w' snap run =
        let once : OnServer R Snapshot = start_backup_once m p find_service folders name reason in
        elim (retry_on_server-ok (on_vault (unlock m p)) once (once w) w' snap run) [
          | inl first ↦ (w.remote, inl refl, start_backup_once-Ran w w' snap first)
          | inr (e, met, stale, w1, unlocked, second) ↦ (
            w1.remote,
            inr (
              e,
              met,
              stale,
              ap (λ (q : Result Failure (Unit {0}) × World (Vault R)). (q.0, q.1.remote)) unlocked,
            ),
            start_backup_once-Ran w1 w' snap second,
          )
        ]
