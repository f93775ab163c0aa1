-- ===== src/Restic/SecretSequence.antt =====
-- The secret after any sequence of operations.
use selfprivacy_api.Restic.Sequence.{
  unlock_it, init_it, erase_it, lock_it, check_it, list_it, size_it, forget_it, restore_it,
}
use selfprivacy_api.Restic.Listing.{get_snapshots}
use selfprivacy_api.Restic.Json.{Failure, Json, parse_json_output}
use selfprivacy_api.Restic.SecretKept.{
  restore_once-Holds, get_snapshots-Holds, lock-Holds, erase_repo-Holds,
}
use selfprivacy_api.Restic.Download.{restore_once, restore_from_backup}
use selfprivacy_api.Restic.Operations.{
  forgotten, size_from, checked_repo, ask, created_repo, forget_snapshots, restored_size, init_repo,
  is_initted,
}
use selfprivacy_api.Restic.Secret.{unlocked_repo-Holds, ask-Holds, unlock-Holds, bind-Holds, Holds}
use selfprivacy_api.Restic.Sequence.{
  restore_it, forget_it, size_it, Operation, dropping, perform, perform_all,
}
use selfprivacy_api.Restic.Command.{no_args, nested, word, arg, args_of, ResticBackupper}
use selfprivacy_api.Restic.Vault.{Completed, Vault, Call, Machine}
use selfprivacy_api.Base.{Result, pure, List, String, ◌≡◌, [], some, ◌∷◌}

module _ {R : Type 0} (m : Machine R) (p : ResticBackupper) (k : String) where
  dropping-Holds : {A : Type 0} (f : Call R A) → Holds m p k f → Holds m p k (dropping f)
  dropping-Holds f hf = bind-Holds m p k f (λ _. pure tt) hf (λ _ v h. h)

  perform-Holds : (o : Operation) → Holds m p k (perform m p o)
  unfolding perform is_initted init_repo restored_size forget_snapshots restore_from_backup
  perform-Holds unlock_it v h = unlock-Holds m p k v h
  perform-Holds init_it v h = ask-Holds m p k (args_of ("init" ∷ [])) created_repo v h
  perform-Holds erase_it v h = erase_repo-Holds m p k v h
  perform-Holds lock_it v h = lock-Holds m p k v h
  perform-Holds check_it v h =
      dropping-Holds (is_initted m p)
        (unlocked_repo-Holds m p k (ask m p (args_of ("check" ∷ [])) checked_repo)
          (ask-Holds m p k (args_of ("check" ∷ [])) checked_repo))
        v h
  perform-Holds (size_it id) v h =
      let read : Completed → Result Failure Json =
        λ done. size_from done.printed (parse_json_output m.loads done.printed) in
      let xs = args_of ("stats" ∷ id ∷ "--json" ∷ []) in
      dropping-Holds (restored_size m p id)
        (unlocked_repo-Holds m p k (ask m p xs read) (ask-Holds m p k xs read)) v h
  perform-Holds (forget_it ids) v h =
      let xs =
        arg (word "forget")
          (arg (nested (arg (nested (args_of ids)) no_args)) (arg (word "--prune") no_args)) in
      unlocked_repo-Holds m p k (ask m p xs forgotten) (ask-Holds m p k xs forgotten) v h
  perform-Holds list_it v h = dropping-Holds (get_snapshots m p) (get_snapshots-Holds m p k) v h
  perform-Holds (restore_it id folders verify) v h =
      unlocked_repo-Holds m p k (restore_once m p id folders verify)
        (restore_once-Holds m p k id folders verify) v h

  -- Whatever operations of the backupper, backups left aside, run one after the other, those that
  -- raise an exception included: the secret with which the backups are encrypted, once there is one, stays the same.
  pub perform_all-keeps_secret :
      (os : List Operation) (v : Vault R)
      → v.secret ≡ some k
      → (perform_all m p os v).secret ≡ some k
  unfolding perform_all
  perform_all-keeps_secret [] v h = h
  perform_all-keeps_secret (o ∷ os) v h =
      perform_all-keeps_secret os (perform m p o v).1 (perform-Holds o v h)
