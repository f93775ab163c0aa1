-- ===== src/Moving/Service.antt =====
-- The whole move of a service (`Service.move_to_volume` of selfprivacy_api/services/service.py) and
-- its worker task (`move_service` of selfprivacy_api/services/tasks.py).
use Prim.Native.String.{◌++◌ as str_append}
use selfprivacy_api.Base.{
  ℕ, String, Bool, true, false, not, ◌&&◌, some, if◌then◌else◌, Result, ok, err, Action, pure, gets,
  modify, ◌>>=◌, ◌>>◌,
}
use selfprivacy_api.Jobs.Model.{finished, error, Update, update_of}
use selfprivacy_api.Jobs.Store.{update, report_progress}
use selfprivacy_api.Backup.Restore.{ServiceStatus, Waited, is_stopped, was_up, waited_result}
use selfprivacy_api.Backup.InPlace.{stop_timeout, start_timeout}
use selfprivacy_api.System.Rebuild.{Systemd, rebuild_system}
use selfprivacy_api.Moving.Volume.{BlockDevice, MovableService, MoveWorld, set_location}
use selfprivacy_api.Moving.Bind.{Mover, on_files}
use selfprivacy_api.Moving.Move.{
  about, has_folders, assert_can_move, with_job, report, do_move_to_volume,
}

-- `stop` and `start` wait for the service. `describe` puts the name of an exception's class and a
-- space before its text.
pub record ServiceMover (R : Type 0) : Type 0 where
  pub mover : Mover R
  pub systemd : Systemd R
  pub clock : ℕ → ℕ
  pub describe : String → String
  pub is_always_active : Bool
  pub get_status : Action R String ServiceStatus
  pub stop : R → Waited × R
  pub start : R → Waited × R

abbrev pub moved_update : MovableService → Update
moved_update service = record (update_of finished) {
  result = some (str_append service.display_name " moved successfully.");
  status_text = some (about "Starting " service.display_name "...");
  progress = some 100;
}

abbrev pub moved_nothing : MovableService → Update
moved_nothing service = record (update_of finished) {
  result = some (str_append service.display_name " moved successfully (no folders).");
  status_text = some (str_append "NOT starting " service.display_name);
  progress = some 100;
}

module _ {R : Type 0} where
  abbrev pub wait_or_raise : String → (R → Waited × R) → Action (MoveWorld R) String (Unit {0})
  wait_or_raise text_ f w =
      (waited_result text_ (f w.remote).0, record w { remote = (f w.remote).1 })

  abbrev pub note : ℕ → Update → Action (MoveWorld R) String (Unit {0})
  note now u = modify (λ w. with_job w (update now u w.job w.jobs))

  -- `rebuild_system(job, upgrade=False)` with the job of the move
  unfoldable pub rebuild_for_move : ServiceMover R → Action (MoveWorld R) String (Unit {0})
  unfolding rebuild_system
  rebuild_for_move b w =
      let (r, v) =
        rebuild_system b.systemd false (record { job = w.job; jobs = w.jobs; remote = w.remote }) in
      (r, record w { job = v.job; jobs = v.jobs; remote = v.remote })

  -- The block that runs while the service is stopped.
  unfoldable pub move_stopped :
      ServiceMover R → MovableService → BlockDevice → Action (MoveWorld R) String (Unit {0})
  unfolding do_move_to_volume rebuild_for_move report_progress update
  move_stopped b service volume = do
    report (b.clock 2) 9 "Stopped service, starting the move..."
    do_move_to_volume b.mover service volume
    report (b.clock 3) 98 "Move complete, rebuilding..."
    rebuild_for_move b
    note (b.clock 4) (moved_update service)

  -- `StoppedService.__aenter__` and `__aexit__`
  abbrev pub enter_stopped : ServiceMover R → Action (MoveWorld R) String ServiceStatus
  enter_stopped b = do
    status ← on_files b.get_status
    if not (is_stopped status) && not b.is_always_active
        then wait_or_raise stop_timeout b.stop
        else pure tt
    pure status

  abbrev pub exit_stopped :
      ServiceMover R
      → ServiceStatus
      → Result String (Unit {0}) × MoveWorld R
      → Result String (Unit {0}) × MoveWorld R
  exit_stopped b original_status (r, w) =
      let exit : Action (MoveWorld R) String (Unit {0}) =
        if was_up original_status && not b.is_always_active
        then wait_or_raise start_timeout b.start
        else pure tt in
      let (left, w') = exit w in (elim left [ err e ↦ err e | ok _ ↦ r ], w')

  abbrev pub move_data :
      ServiceMover R → MovableService → BlockDevice → Action (MoveWorld R) String (Unit {0})
  move_data b service volume = do
    report (b.clock 1) 5 (about "Stopping " service.display_name "...")
    original_status ← enter_stopped b
    λ w. exit_stopped b original_status (move_stopped b service volume w)

  abbrev pub move_nothing :
      ServiceMover R → MovableService → BlockDevice → Action (MoveWorld R) String (Unit {0})
  move_nothing b service volume = do
    modify (set_location service volume)
    note (b.clock 1) (moved_nothing service)

  unfoldable pub move_to_volume :
      ServiceMover R → MovableService → BlockDevice → Action (MoveWorld R) String (Unit {0})
  unfolding assert_can_move has_folders set_location move_stopped report_progress update
  move_to_volume b service volume = do
    report (b.clock 0) 0 "Performing pre-move checks..."
    assert_can_move b.mover service volume
    here ← gets (has_folders b.mover service)
    if here then move_data b service volume else move_nothing b service volume

  abbrev pub caught :
      ServiceMover R → Result String (Unit {0}) × MoveWorld R → Result String Bool × MoveWorld R
  caught b (ok u, w) = (ok true, w)
  caught b (err e, w) = (
    ok true,
    with_job w (
        update (b.clock 5) (record (update_of error) { error_text = some (b.describe e) }) w.job
          w.jobs),
  )

  -- The worker task
  unfoldable pub move_service :
      ServiceMover R → MovableService → BlockDevice → Action (MoveWorld R) String Bool
  unfolding move_to_volume update
  move_service b service volume w = caught b (move_to_volume b service volume w)
