-- ===== src/Moving/Keeps.antt =====
-- The steps of a move change no location in userdata.json.
use Prim.Native.String.{◌++◌ as str_append}
use selfprivacy_api.Base.{
  ℕ, ◌+◌, ◌/◌, length, String, ◌≡◌, refl, ap, ◌∙◌, inl, inr, Bool, not, List, [], ◌∷◌, Dict,
  Result-cases, Result, ok, err, Action, pure, raise_if, ◌>>=◌, ◌>>◌, bind-ok, bind-err,
}
use selfprivacy_api.Moving.Volume.{BlockDevice, MovableService, MoveWorld, get_drive}
use selfprivacy_api.Moving.Bind.{
  Bind, Mover, no_path_to_bind, no_path_to_unbind, location_at_volume, moved_to, on_files, bind,
  unbind, ensure_ownership,
}
use selfprivacy_api.Moving.Move.{
  could_not_move, about, progress_or_zero, binds_on, lift, binds, for_each, unbind_folders,
  ensure_folder_ownership, bind_folders, report, explain, move_each, move_data_to_volume, noting,
  move_folders,
}

module _ {R : Type 0} where
  -- The call does not change what userdata.json says about locations.
  abbrev pub Keeps : {A : Type 0} → Action (MoveWorld R) String A → Type 0
  Keeps m = (w : MoveWorld R) → (m w).1.locations ≡ w.locations

  bind-Keeps :
      {A B : Type 0} (m : Action (MoveWorld R) String A) (f : A → Action (MoveWorld R) String B)
      → Keeps m
      → ((a : A) → Keeps (f a))
      → Keeps (m >>= f)
  bind-Keeps {A = A} {B = B} m f h rest w =
      let at : Result String B × MoveWorld R → Dict String = λ q. q.1.locations in
      elim (Result-cases (m w).0) [
        | inl (a, returned) ↦
            ap at (bind-ok m f {s = w} (ap (λ (r : Result String A). (r, (m w).1)) returned))
            ∙ rest a (m w).1
            ∙ h w
        | inr (x, raised) ↦
            ap at (bind-err m f {s = w} (ap (λ (r : Result String A). (r, (m w).1)) raised)) ∙ h w
      ]

  raise_if-Keeps : (c : Bool) (e : String) → Keeps (raise_if c e)
  raise_if-Keeps c e w = refl

  moved_to-Keeps :
      {A : Type 0} (w : MoveWorld R) (q : Result String A × R)
      → (moved_to w q).1.locations ≡ w.locations
  moved_to-Keeps w (r, x) = refl

  on_files-Keeps : {A : Type 0} (m : Action R String A) → Keeps (on_files m)
  on_files-Keeps m w = moved_to-Keeps w (m w.remote)

  for_each-Keeps :
      (f : Bind → Action (MoveWorld R) String (Unit {0})) (xs : List Bind)
      → ((x : Bind) → Keeps (f x))
      → Keeps (for_each f xs)
  for_each-Keeps f [] h w = refl
  for_each-Keeps f (x ∷ xs) h w =
      bind-Keeps (f x) (λ _. for_each f xs) (h x) (λ _. for_each-Keeps f xs h) w

  unbind-Keeps : (b : Mover R) (x : Bind) → Keeps (unbind b x)
  unfolding unbind
  unbind-Keeps b x w =
      let found = b.path_exists x.binding_path w.remote in
      bind-Keeps (raise_if (not found) no_path_to_unbind) (λ _. on_files (b.umount x.binding_path))
        (raise_if-Keeps (not found) no_path_to_unbind)
        (λ _. on_files-Keeps (b.umount x.binding_path)) w

  bind_folder-Keeps : (b : Mover R) (x : Bind) → Keeps (bind b x)
  unfolding bind
  bind_folder-Keeps b x w =
      let found = b.path_exists x.binding_path w.remote in
      bind-Keeps (raise_if (not found) no_path_to_bind)
        (λ _. on_files (b.mount_bind (location_at_volume x) x.binding_path))
        (raise_if-Keeps (not found) no_path_to_bind)
        (λ _. on_files-Keeps (b.mount_bind (location_at_volume x) x.binding_path)) w

  report-Keeps : (now progress : ℕ) (text_ : String) → Keeps (report now progress text_)
  report-Keeps now progress text_ w = refl

  explain-Keeps :
      {A : Type 0} (f : String → String) (q : Result String A × MoveWorld R)
      → (explain f q).1.locations ≡ q.1.locations
  explain-Keeps f (ok a, w) = refl
  explain-Keeps f (err e, w) = refl

  move_each-Keeps :
      (b : Mover R) (new_volume : BlockDevice) (progress : ℕ) (xs : List Bind)
      → Keeps (move_each b new_volume progress xs)
  unfolding move_each
  move_each-Keeps b new_volume progress [] w = refl
  move_each-Keeps b new_volume progress (x ∷ xs) w =
      let moved : Bind = record x { drive = new_volume } in
      let files = b.move_files (location_at_volume x) (location_at_volume moved) in
      let one : Action (MoveWorld R) String (Unit {0}) = λ w.
        explain (could_not_move (location_at_volume x) (location_at_volume moved))
          (on_files files w) in
      let finish : List Bind → Action (MoveWorld R) String (List Bind) =
        λ rest. pure (moved ∷ rest) in
      let later : Unit {0} → Action (MoveWorld R) String (List Bind) =
        λ _. move_each b new_volume progress xs >>= finish in
      bind-Keeps one (λ u. report (b.clock 3) progress "Moving data to new volume..." >>= later)
        (λ v.
          explain-Keeps (could_not_move (location_at_volume x) (location_at_volume moved))
            (on_files files v)
          ∙ on_files-Keeps files v)
        (λ _.
          bind-Keeps (report (b.clock 3) progress "Moving data to new volume...") later
            (report-Keeps (b.clock 3) progress "Moving data to new volume...")
            (λ _.
              bind-Keeps (move_each b new_volume progress xs) finish
                (move_each-Keeps b new_volume progress xs) (λ rest v. refl)))
        w

  move_data_to_volume-Keeps :
      (b : Mover R) (xs : List Bind) (new_volume : BlockDevice)
      → Keeps (move_data_to_volume b xs new_volume)
  unfolding move_data_to_volume
  move_data_to_volume-Keeps b [] new_volume w = refl
  move_data_to_volume-Keeps b (x ∷ xs) new_volume w =
      move_each-Keeps b new_volume (progress_or_zero w.job.progress + 50 / length (x ∷ xs)) (x ∷ xs)
        w

  noting-Keeps :
      (b : Mover R) (service : MovableService) (q : Result String (Unit {0}) × MoveWorld R)
      → (noting b service q).1.locations ≡ q.1.locations
  noting-Keeps b service (ok u, w) = refl
  noting-Keeps b service (err e, w) = refl

  binds-Keeps : (b : Mover R) (service : MovableService) → Keeps (binds b service)
  unfolding binds get_drive
  binds-Keeps b service =
      let of : String → Action (MoveWorld R) String (List Bind) =
        λ drive_name. lift (binds_on b.devices drive_name service.owned_folders) in
      bind-Keeps (get_drive b.devices service) of (λ w. refl) (λ drive_name w. refl)

  module _ (b : Mover R) (service : MovableService) (volume : BlockDevice) where
    abbrev owned : List Bind → Action (MoveWorld R) String (Unit {0})
    owned new w = noting b service (ensure_folder_ownership b new w)

    abbrev mount_new : List Bind → Action (MoveWorld R) String (Unit {0})
    mount_new new = do
      report (b.clock 6) 90 (about "Mounting " service.display_name " data...")
      bind_folders b new
      report (b.clock 7) 95 (about "Finishing moving " service.display_name "...")

    abbrev own_and_mount : List Bind → Action (MoveWorld R) String (Unit {0})
    own_and_mount new = do
      report (b.clock 4) 70 (about "Making sure " service.display_name " owns its files...")
      owned new
      mount_new new

    mount_new-Keeps : (new : List Bind) → Keeps (mount_new new)
    unfolding bind_folders
    mount_new-Keeps new w =
        let last : Unit {0} → Action (MoveWorld R) String (Unit {0}) =
          λ _. report (b.clock 7) 95 (about "Finishing moving " service.display_name "...") in
        bind-Keeps (for_each (bind b) new) last (for_each-Keeps (bind b) new (bind_folder-Keeps b))
          (λ _. report-Keeps (b.clock 7) 95 (about "Finishing moving " service.display_name "..."))
          _

    own_and_mount-Keeps : (new : List Bind) → Keeps (own_and_mount new)
    unfolding ensure_folder_ownership ensure_ownership
    own_and_mount-Keeps new w =
        bind-Keeps (owned new) (λ _. mount_new new)
          (λ v.
            noting-Keeps b service (ensure_folder_ownership b new v)
            ∙ for_each-Keeps (ensure_ownership b) new
                (λ x.
                  on_files-Keeps
                    (b.chown (str_append x.owner (str_append ":" x.group)) (location_at_volume x)))
                v)
          (λ _. mount_new-Keeps new) _

    pub move_folders-Keeps : Keeps (move_folders b service volume)
    unfolding move_folders unbind_folders
    move_folders-Keeps =
        let move : List Bind → Action (MoveWorld R) String (Unit {0}) =
          λ old. move_data_to_volume b old volume >>= own_and_mount in
        let report_move : List Bind → Action (MoveWorld R) String (Unit {0}) =
          λ old. report (b.clock 2) 20 "Moving data to new volume..." >> move old in
        let go : List Bind → Action (MoveWorld R) String (Unit {0}) = λ old.
          report (b.clock 1) 10 "Unmounting folders from old volume..."
          >> (for_each (unbind b) old >> report_move old) in
        bind-Keeps (binds b service) go (binds-Keeps b service) (λ old w.
          bind-Keeps (for_each (unbind b) old) (λ _. report_move old)
            (for_each-Keeps (unbind b) old (unbind-Keeps b))
            (λ _ v.
              bind-Keeps (move_data_to_volume b old volume) own_and_mount
                (move_data_to_volume-Keeps b old volume) own_and_mount-Keeps _)
            _)
