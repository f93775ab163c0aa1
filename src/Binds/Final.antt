-- ===== src/Binds/Final.antt =====
-- The outcomes of the migration to binds, and what a second one does.
use selfprivacy_api.Jobs.Store.{apply_update, update}
use selfprivacy_api.Binds.Kept.{migrate_services-Keeps, data_of}
use selfprivacy_api.Binds.Checks.{volume_problem-none, Available}
use selfprivacy_api.Binds.Migrate.{
  Problem, as_error, already_done, on_server, at_step, unless_migrated, volume_problem,
  migrate_to_binds, unless_missing, service_steps, migrate_services, migration_finished, report,
  unless_problem, find_services, perform_migration,
}
use selfprivacy_api.Binds.Config.{
  activate_binds-field_of, config_devices, activate_binds, is_bind_migrated, BindMigrationConfig,
}
use selfprivacy_api.Binds.Folder.{BindWorld, BindSystem}
use mathlib.Core.Path.{subst}
use selfprivacy_api.Base.{
  Result, ◌≢◌, ◌>>◌, bind-elim, Bool, ◌∙◌, bind-Keeps, str_mem, Action, String, Option, ◌⊎◌, refl,
  ◌≡◌, inl, inr, ok, none, some, true, false, ap,
}
use selfprivacy_api.Jobs.Model.{JobStatus}

module _ {R : Type 0} (b : BindSystem R) (c : BindMigrationConfig) where
  abbrev found : R → R
  found x = (find_services b x).1

  -- Of the calls on the server, only the look-ups of the services ran, and at most
  -- /volumes/sda1 was made.
  abbrev pub Untouched : R → R → Type 0
  Untouched x x' = (x' ≡ x) ⊎ ((x' ≡ found x) ⊎ (x' ≡ (b.make_folder "/volumes/sda1" (found x)).1))

  abbrev pub Ready : BindWorld R → Type 0
  Ready w =
      (is_bind_migrated w.userdata ≡ false)
      × ((find_services b w.remote).0 ≡ ok none)
      × ((x : String)
          → str_mem x (config_devices c) ≡ true
          → Available (b.block_devices (found w.remote)) x)

  abbrev pub Checked : BindWorld R → BindWorld R → Type 0
  Checked w w' =
      ((w'.userdata ≡ w.userdata) × Untouched w.remote w'.remote)
      ⊎ ((w'.userdata ≡ activate_binds c w.userdata) × Ready w)

  perform_migration-activates :
      (w : BindWorld R) → (perform_migration b c w).1.userdata ≡ activate_binds c w.userdata
  unfolding perform_migration
  perform_migration-activates w =
      let w1 : BindWorld R = record w { userdata = activate_binds c w.userdata } in
      let finish : Action (BindWorld R) String (Unit {0}) =
        report (b.clock 10) migration_finished in
      bind-Keeps data_of (migrate_services b (service_steps b.clock c)) (λ _. finish)
        (migrate_services-Keeps b (service_steps b.clock c)) (λ _ w. refl) w1

  unless_problem-Checked :
      (w w1 : BindWorld R) (p : Option Problem)
      → w1.userdata ≡ w.userdata
      → w1.remote ≡ found w.remote
      → (p ≡ none → Ready w)
      → Checked w (unless_problem b c p w1).1
  unless_problem-Checked w w1 (some u) e x h = inl (e, inr (inl x))
  unless_problem-Checked w w1 none e x h =
      let make : Action (BindWorld R) String (Unit {0}) =
        on_server (b.make_folder "/volumes/sda1") in
      let announce : Action (BindWorld R) String (Unit {0}) =
        report (b.clock 4) (at_step 5 "Activating binds in NixOS config.") in
      bind-elim (λ q. Checked w q.1) make (λ _. announce >> perform_migration b c) w1
        (λ u returned.
          inr (
            perform_migration-activates (announce (make w1).1).1 ∙ ap (activate_binds c) e,
            h refl,
          ))
        (λ y raised. inl (e, inr (inr (ap (λ y. (b.make_folder "/volumes/sda1" y).1) x))))

  unless_missing-Checked :
      (w w1 : BindWorld R) (p : Option Problem)
      → w1.userdata ≡ w.userdata
      → w1.remote ≡ found w.remote
      → is_bind_migrated w.userdata ≡ false
      → (p ≡ none → (find_services b w.remote).0 ≡ ok none)
      → Checked w (unless_missing b c p w1).1
  unless_missing-Checked w w1 (some u) e x m h = inl (e, inr (inl x))
  unless_missing-Checked w w1 none e x m h =
      unless_problem-Checked w _ (volume_problem (b.block_devices w1.remote) c) e x (λ p. (
        m,
        h refl,
        λ device listed.
            volume_problem-none (b.block_devices (found w.remote)) c device
              (subst (λ y. volume_problem (b.block_devices y) c ≡ none) x p) listed,
      ))

  unless_migrated-Checked :
      (w : BindWorld R) (m : Bool)
      → is_bind_migrated w.userdata ≡ m
      → Checked w (unless_migrated b c m w).1
  unless_migrated-Checked w true e = inl (refl, inl refl)
  unless_migrated-Checked w false e =
      let start : Action (BindWorld R) String (Unit {0}) =
        report (b.clock 1) (at_step 0 "Checking if services are present.") in
      let look : Action (BindWorld R) String (Option Problem) = on_server (find_services b) in
      let w1 : BindWorld R = (start w).1 in
      bind-elim (λ q. Checked w q.1) look (unless_missing b c) w1
        (λ p returned. unless_missing-Checked w (look w1).1 p refl refl e (λ h. returned ∙ ap ok h))
        (λ x raised. inl (refl, inr (inl refl)))

  pub migrate_to_binds-Checked : (w : BindWorld R) → Checked w (migrate_to_binds b c w).1
  unfolding migrate_to_binds
  migrate_to_binds-Checked w = unless_migrated-Checked w (is_bind_migrated w.userdata) refl

module _ {R : Type 0} (b : BindSystem R) where
  refused :
      (c : BindMigrationConfig) (w : BindWorld R)
      → is_bind_migrated w.userdata ≡ true
      → migrate_to_binds b c w ≡ report (b.clock 1) (as_error already_done) w
  unfolding migrate_to_binds
  refused c w e = ap (λ m. unless_migrated b c m w) e

  -- Once a migration to binds has changed userdata.json, even one that was then broken off by an
  -- exception with the folders not moved, another migration with any configuration moves nothing:
  -- it leaves userdata.json and the server as they are and puts its job in error.
  pub second_migration_refused :
      (c c' : BindMigrationConfig) (w : BindWorld R)
      → (migrate_to_binds b c w).1.userdata ≢ w.userdata
      → ((migrate_to_binds b c' (migrate_to_binds b c w).1).1.userdata
          ≡ (migrate_to_binds b c w).1.userdata)
        × ((migrate_to_binds b c' (migrate_to_binds b c w).1).1.remote
            ≡ (migrate_to_binds b c w).1.remote)
        × ((migrate_to_binds b c' (migrate_to_binds b c w).1).1.job.status ≡ JobStatus.error)
  unfolding update apply_update
  second_migration_refused c c' w changed =
      let w' = (migrate_to_binds b c w).1 in
      elim (migrate_to_binds-Checked b c w) [
        | inl (same, _) ↦ absurd (changed same)
        | inr (activated, _) ↦
            let migrated : is_bind_migrated w'.userdata ≡ true =
              ap is_bind_migrated activated ∙ (activate_binds-field_of c w.userdata "" "").0 in
            let run =
              ap (λ (q : Result String (Unit {0}) × BindWorld R). q.1) (refused c' w' migrated) in
            (
              ap (λ (x : BindWorld R). x.userdata) run,
              ap (λ (x : BindWorld R). x.remote) run,
              ap (λ (x : BindWorld R). x.job.status) run,
            )
      ]
