-- ===== src/Backup/Restore.antt =====
-- Restoring one snapshot: `Backups.restore_snapshot` and what it calls
-- (selfprivacy_api/backup/__init__.py), with `StoppedService` of selfprivacy_api/services/service.py.
-- The hooks of the services, systemd and the file systems are a parameter.
use selfprivacy_api.Base.{
  ℕ, ◌-◌, String, Bool, true, false, not, Option, none, some, List, [], ◌∷◌, ltb, Result, ok, err,
  Action, pure, gets, modify, raise_if, ◌>>=◌, ◌>>◌,
}
use selfprivacy_api.Backup.Model.{Snapshot}
use selfprivacy_api.Backup.ServiceJobs.{
  Service, get_restore_job, is_something_running_for, restore_job_type,
}
use selfprivacy_api.Backup.Run.{Run, Worker, set_jobs, on_remote, update_job}
use selfprivacy_api.Jobs.Model.{JobStatus, created, Job, Args, Update, update_of}
use selfprivacy_api.Jobs.Store.{add}

pub data ServiceStatus : Type 0 where
  active reloading inactive failed activating deactivating off : ServiceStatus

pub data RestoreStrategy : Type 0 where
  inplace download_verify_overwrite : RestoreStrategy

-- How `stop()` or `start()` and the waiting after it end: `TimeoutError` is told from the others.
pub data Waited : Type 0 where
  in_time timed_out : Waited
  interrupted : String → Waited

-- `folder_space` is none where the folder does not exist, `device_space` where the drive does not.
pub record Restorer (R : Type 0) : Type 0 where
  pub worker : Worker R
  pub clock : ℕ → ℕ
  pub uid : String
  pub find_service : String → Option Service
  pub is_always_active : Service → Bool
  pub get_status : Service → Action R String ServiceStatus
  pub stop : Service → R → Waited × R
  pub start : Service → R → Waited × R
  pub pre_restore : Service → Run R (Unit {0})
  pub post_restore : Service → Run R (Unit {0})
  pub folders : Service → List String
  pub folder_space : String → R → Option ℕ
  pub device_space : Service → R → Option ℕ
  pub restored_size : String → Action R String ℕ
  pub storage_usage : Service → Action R String ℕ
  pub restore_from_backup :
      (snapshot_id : String)
      → (folders : List String) → (verify : Bool) → Action R String (Unit {0})

-- The texts of the exceptions, without the names and numbers in them.
abbrev pub no_such_service : String
no_such_service = "snapshot has a nonexistent service"

abbrev pub operation_running : String
operation_running = "Cannot start a restore, another operation is running"

abbrev pub unallocated_service : String
unallocated_service = "unallocated service"

abbrev pub nonexistent_drive : String
nonexistent_drive = "nonexistent drive"

abbrev pub not_enough_space : String
not_enough_space = "not enough space for the snapshot"

abbrev pub not_dead : String
not_dead = "the service is not dead"

abbrev pub is_stopped : ServiceStatus → Bool
is_stopped inactive = true
is_stopped failed = true
is_stopped _ = false

abbrev pub was_up : ServiceStatus → Bool
was_up activating = true
was_up active = true
was_up _ = false

abbrev pub waited_result : String → Waited → Result String (Unit {0})
waited_result text_ in_time = ok tt
waited_result text_ timed_out = err text_
waited_result text_ (interrupted e) = err e

abbrev pub status_text : JobStatus → String → Update
status_text status text_ = record (update_of status) { status_text = some text_ }

module _ {R : Type 0} where
  abbrev pub waiting : String → (R → Waited × R) → Run R (Unit {0})
  waiting text_ f w = (waited_result text_ (f w.remote).0, record w { remote = (f w.remote).1 })

  abbrev pub from_option : {A : Type 0} → String → Option A → Run R A
  from_option text_ o w = (elim o [ none ↦ err text_ | some a ↦ ok a ], w)

  -- `add_restore_job`
  unfoldable pub add_restore_job : Restorer R → Snapshot → Run R Job
  unfolding add restore_job_type is_something_running_for
  add_restore_job b snap = do
    service ← from_option no_such_service (b.find_service snap.service_name)
    js ← gets (λ w. w.server.jobs)
    raise_if (is_something_running_for service js) operation_running
    let name_args : Args = some (("display_name", service.display_name) ∷ [])
    let description_args : Args =
        some (("display_name", service.display_name) ∷ ("snapshot_id", snap.id) ∷ [])
    let (j, js') =
        add b.uid (b.clock 0) "Restore %(display_name)s" (restore_job_type service)
          "Restoring %(display_name)s from %(snapshot_id)s" name_args description_args created "" 0
          js
    modify (set_jobs js')
    pure j

  -- `_ensure_queued_restore_job`
  unfoldable pub ensure_queued_restore_job : Restorer R → Service → Snapshot → Run R (Unit {0})
  unfolding add_restore_job get_restore_job update_job
  ensure_queued_restore_job b service snap = do
    queued ← gets (λ w. get_restore_job w.server.job_eq service w.server.jobs)
    j ← elim queued [ none ↦ add_restore_job b snap | some j ↦ pure j ]
    modify (λ w. update_job (b.clock 1) (update_of created) (record w { job = j }))

  -- `space_usable_for_service`
  unfoldable pub space_usable_for_service : Restorer R → Service → Run R ℕ
  space_usable_for_service b service w = elim (b.folders service) [
    | [] ↦ (err unallocated_service, w)
    | folder ∷ _ ↦ elim (b.folder_space folder w.remote) [
      | some usable_bytes ↦ (ok usable_bytes, w)
      | none ↦ elim (b.device_space service w.remote) [
        | none ↦ (err nonexistent_drive, w)
        | some usable_bytes ↦ (ok usable_bytes, w)
      ]
    ]
  ]

  -- The difference stops at 0, where the test below it does not change.
  abbrev pub needed_space : Restorer R → Service → RestoreStrategy → ℕ → Run R ℕ
  needed_space b service download_verify_overwrite size = pure size
  needed_space b service inplace size = do
    used ← on_remote (b.storage_usage service)
    pure (size - used)

  -- `_assert_restorable`
  unfoldable pub assert_restorable : Restorer R → Snapshot → RestoreStrategy → Run R (Unit {0})
  unfolding space_usable_for_service
  assert_restorable b snap strategy = do
    service ← from_option no_such_service (b.find_service snap.service_name)
    size ← on_remote (b.restored_size snap.id)
    needed ← needed_space b service strategy size
    available ← space_usable_for_service b service
    raise_if (ltb available needed) not_enough_space

  -- `assert_dead`
  unfoldable pub assert_dead : Restorer R → Service → Run R (Unit {0})
  assert_dead b service = do
    status ← on_remote (b.get_status service)
    raise_if (not (is_stopped status)) not_dead

  -- `_restore_service_from_snapshot`
  unfoldable pub restore_service_from_snapshot :
      Restorer R → Service → (snapshot_id : String) → (verify : Bool) → Run R (Unit {0})
  restore_service_from_snapshot b service snapshot_id verify =
      on_remote (b.restore_from_backup snapshot_id (b.folders service) verify)
