-- ===== src/Restic/Sequence.antt =====
-- The operations of `ResticBackupper` one after the other, as its callers run them: an exception
-- ends an operation and not the sequence.
use selfprivacy_api.Restic.Download.{restore_from_backup}
use selfprivacy_api.Restic.Listing.{get_snapshots}
use selfprivacy_api.Restic.Command.{ResticBackupper}
use selfprivacy_api.Restic.Operations.{
  forget_snapshots, restored_size, is_initted, lock, erase_repo, init_repo, unlock,
}
use selfprivacy_api.Restic.Vault.{Vault, Call, Machine}
use selfprivacy_api.Base.{String, Bool, List, [], ◌∷◌, pure, ◌>>◌}

pub data Operation : Type 0 where
  unlock_it init_it erase_it lock_it check_it list_it : Operation
  size_it : (id : String) → Operation
  forget_it : (ids : List String) → Operation
  restore_it : (id : String) → (folders : List String) → (verify : Bool) → Operation

module _ {R : Type 0} where
  -- What the operation returns is left out.
  abbrev pub dropping : {A : Type 0} → Call R A → Call R (Unit {0})
  dropping f = f >> pure tt

  unfoldable pub perform : Machine R → ResticBackupper → Operation → Call R (Unit {0})
  unfolding unlock init_repo erase_repo lock is_initted get_snapshots restored_size forget_snapshots
      restore_from_backup
  perform m p unlock_it = unlock m p
  perform m p init_it = init_repo m p
  perform m p erase_it = erase_repo m p
  perform m p lock_it = lock m p
  perform m p check_it = dropping (is_initted m p)
  perform m p list_it = dropping (get_snapshots m p)
  perform m p (size_it id) = dropping (restored_size m p id)
  perform m p (forget_it ids) = forget_snapshots m p ids
  perform m p (restore_it id folders verify) = restore_from_backup m p id folders verify

  unfoldable pub perform_all : Machine R → ResticBackupper → List Operation → Vault R → Vault R
  unfolding perform
  perform_all m p [] v = v
  perform_all m p (o ∷ os) v = perform_all m p os (perform m p o v).1
