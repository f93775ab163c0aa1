-- ===== src/Moving/Move.antt =====
-- The functions of selfprivacy_api/services/moving.py and the move of one service
-- (`Service.binds`, `assert_can_move`, `do_move_to_volume` of selfprivacy_api/services/service.py).
use Prim.Native.String.{◌++◌ as str_append}
use selfprivacy_api.Base.{
  ℕ, ◌+◌, ◌/◌, String, Bool, true, false, not, ◌&&◌, Option, none, some, List, [], ◌∷◌, length, any,
  str_eq, str_mem, ltb, if◌then◌else◌, Result, ok, err, Action, pure, raise, gets, modify, raise_if,
  ◌>>=◌, ◌>>◌,
}
use selfprivacy_api.Jobs.Model.{Job, running, Update, update_of}
use selfprivacy_api.Jobs.Store.{JobStore, update, report_progress}
use selfprivacy_api.Moving.Volume.{
  BlockDevice, is_root, OwnedPath, MovableService, MoveWorld, get_drive, set_location,
}
use selfprivacy_api.Moving.Bind.{
  Bind, Mover, location_at_volume, from_owned_path, on_files, validate, bind, unbind,
  ensure_ownership,
}

abbrev pub no_space : String
no_space = "Not enough space on the new volume."

abbrev pub not_mounted : String
not_mounted = "Volume is not mounted."

abbrev pub not_movable : String
not_movable = "the service is not movable"

abbrev pub not_using_binds : String
not_using_binds = "Server is not using binds."

abbrev pub already_there : String
already_there = "the service is already on the volume"

abbrev pub nothing_to_move : String
nothing_to_move = "nothing to move"

abbrev pub division_by_zero : String
division_by_zero = "integer division or modulo by zero"

abbrev pub could_not_move : String → String → String → String
could_not_move old new e =
    str_append "could not move "
      (str_append old (str_append " to " (str_append new (str_append " : " e))))

abbrev pub cannot_write : (service_name e : String) → Update
cannot_write service_name e = record (update_of running) {
  error_text = some (
      str_append "Service "
        (str_append service_name (str_append " will not be able to write files: " e)));
}

abbrev pub about : (before service_name after : String) → String
about before service_name after = str_append before (str_append service_name after)

abbrev pub progress_or_zero : Option ℕ → ℕ
progress_or_zero none = 0
progress_or_zero (some n) = n

-- `check_volume`
unfoldable pub check_volume : BlockDevice → (space_needed : ℕ) → Result String (Unit {0})
unfolding is_root str_mem
check_volume volume space_needed =
    if ltb volume.fsavail space_needed
    then err no_space
    else if not (is_root volume)
        && not (str_mem (str_append "/volumes/" volume.canonical_name) volume.mountpoints)
    then err not_mounted
    else ok tt

unfoldable pub binds_on :
    List BlockDevice → (drive_name : String) → List OwnedPath → Result String (List Bind)
unfolding from_owned_path
binds_on devices drive_name [] = ok []
binds_on devices drive_name (p ∷ ps) =
    let rest = binds_on devices drive_name ps in
    elim (from_owned_path devices p drive_name) [
      | err e ↦ err e
      | ok x ↦ elim rest [ err e ↦ err e | ok xs ↦ ok (x ∷ xs) ]
    ]

module _ {R : Type 0} where
  abbrev pub lift : {A : Type 0} → Result String A → Action (MoveWorld R) String A
  lift r w = (r, w)

  -- `Service.binds`
  unfoldable pub binds : Mover R → MovableService → Action (MoveWorld R) String (List Bind)
  unfolding get_drive binds_on
  binds b service = do
    drive_name ← get_drive b.devices service
    lift (binds_on b.devices drive_name service.owned_folders)

  -- One call for each bind, until one raises.
  abbrev pub for_each :
      (Bind → Action (MoveWorld R) String (Unit {0}))
      → List Bind
      → Action (MoveWorld R) String (Unit {0})
  for_each f [] = pure tt
  for_each f (x ∷ xs) = f x >> for_each f xs

  -- `check_binds`, `unbind_folders`, `ensure_folder_ownership` and `bind_folders`
  unfoldable pub check_binds : Mover R → List Bind → Action (MoveWorld R) String (Unit {0})
  unfolding validate
  check_binds b = for_each (validate b)

  unfoldable pub unbind_folders : Mover R → List Bind → Action (MoveWorld R) String (Unit {0})
  unfolding unbind
  unbind_folders b = for_each (unbind b)

  unfoldable pub ensure_folder_ownership :
      Mover R → List Bind → Action (MoveWorld R) String (Unit {0})
  unfolding ensure_ownership
  ensure_folder_ownership b = for_each (ensure_ownership b)

  unfoldable pub bind_folders : Mover R → List Bind → Action (MoveWorld R) String (Unit {0})
  unfolding bind
  bind_folders b = for_each (bind b)

  -- `Service.has_folders`
  unfoldable pub has_folders : Mover R → MovableService → MoveWorld R → Bool
  has_folders b service w =
      any (λ (p : OwnedPath). b.path_exists p.path w.remote) service.owned_folders

  -- `Service.assert_can_move`
  unfoldable pub assert_can_move :
      Mover R → MovableService → BlockDevice → Action (MoveWorld R) String (Unit {0})
  unfolding get_drive check_volume binds has_folders check_binds
  assert_can_move b service new_volume = do
    raise_if (not service.is_movable) not_movable
    use_binds ← gets (λ w. w.use_binds)
    raise_if (not use_binds) not_using_binds
    current ← get_drive b.devices service
    raise_if (str_eq current new_volume.canonical_name) already_there
    space_needed ← on_files b.storage_usage
    lift (check_volume new_volume space_needed)
    xs ← binds b service
    raise_if (elim xs [ [] ↦ true | _ ∷ _ ↦ false ]) nothing_to_move
    here ← gets (has_folders b service)
    if here then check_binds b xs else pure tt

  abbrev pub with_job : MoveWorld R → Job × JobStore → MoveWorld R
  with_job w (j, js) = record w { job = j; jobs = js }

  -- `report_progress(progress, job, ...)`
  abbrev pub report : ℕ → ℕ → String → Action (MoveWorld R) String (Unit {0})
  report now progress text_ =
      modify (λ w. with_job w (report_progress now progress w.job text_ w.jobs))

  abbrev pub explain :
      {A : Type 0}
      → (String → String)
      → Result String A × MoveWorld R
      → Result String A × MoveWorld R
  explain f (ok a, w) = (ok a, w)
  explain f (err e, w) = (err (f e), w)

  -- The loop of `move_data_to_volume`: every folder reports the same progress.
  unfoldable pub move_each :
      Mover R → BlockDevice → (progress : ℕ) → List Bind → Action (MoveWorld R) String (List Bind)
  unfolding location_at_volume report_progress
  move_each b new_volume progress [] = pure []
  move_each b new_volume progress (x ∷ xs) = do
    let moved : Bind = record x { drive = new_volume }
    λ w.
        explain (could_not_move (location_at_volume x) (location_at_volume moved))
          (on_files (b.move_files (location_at_volume x) (location_at_volume moved)) w)
    report (b.clock 3) progress "Moving data to new volume..."
    rest ← move_each b new_volume progress xs
    pure (moved ∷ rest)

  -- `move_data_to_volume`
  unfoldable pub move_data_to_volume :
      Mover R → List Bind → BlockDevice → Action (MoveWorld R) String (List Bind)
  unfolding move_each
  move_data_to_volume b [] new_volume = raise division_by_zero
  move_data_to_volume b (x ∷ xs) new_volume = do
    current ← gets (λ w. progress_or_zero w.job.progress)
    move_each b new_volume (current + 50 / length (x ∷ xs)) (x ∷ xs)

  -- `except Exception as error: Jobs.update(job, RUNNING, error=...)`
  abbrev pub noting :
      Mover R
      → MovableService
      → Result String (Unit {0}) × MoveWorld R
      → Result String (Unit {0}) × MoveWorld R
  noting b service (ok u, w) = (ok tt, w)
  noting b service (err e, w) =
      (ok tt, with_job w (update (b.clock 5) (cannot_write service.display_name e) w.job w.jobs))

  -- `Service.do_move_to_volume` up to its last line
  unfoldable pub move_folders :
      Mover R → MovableService → BlockDevice → Action (MoveWorld R) String (Unit {0})
  unfolding binds unbind_folders move_data_to_volume ensure_folder_ownership bind_folders
      report_progress update
  move_folders b service new_volume = do
    old ← binds b service
    report (b.clock 1) 10 "Unmounting folders from old volume..."
    unbind_folders b old
    report (b.clock 2) 20 "Moving data to new volume..."
    new ← move_data_to_volume b old new_volume
    report (b.clock 4) 70 (about "Making sure " service.display_name " owns its files...")
    λ w. noting b service (ensure_folder_ownership b new w)
    report (b.clock 6) 90 (about "Mounting " service.display_name " data...")
    bind_folders b new
    report (b.clock 7) 95 (about "Finishing moving " service.display_name "...")

  unfoldable pub do_move_to_volume :
      Mover R → MovableService → BlockDevice → Action (MoveWorld R) String (Unit {0})
  unfolding move_folders set_location
  do_move_to_volume b service new_volume = do
    move_folders b service new_volume
    modify (set_location service new_volume)
