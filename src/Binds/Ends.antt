-- ===== src/Binds/Ends.antt =====
-- A migration to binds that returns has ended its job.
use selfprivacy_api.Jobs.Model.{is_terminal}
use selfprivacy_api.Jobs.Store.{apply_update, update}
use selfprivacy_api.Binds.Migrate.{
  find_services, at_step, on_server, unless_migrated, unless_missing, Problem, migrate_to_binds,
  service_steps, migrate_services, unless_problem, migration_finished, report, volume_problem,
  perform_migration,
}
use selfprivacy_api.Binds.Config.{is_bind_migrated, activate_binds, BindMigrationConfig}
use selfprivacy_api.Binds.Folder.{BindWorld, BindSystem}
use selfprivacy_api.Base.{
  ◌>>◌, Bool, bind-elim, Option, Action, Result, String, refl, ◌≡◌, ok, err, none, some, true,
  false,
}

module _ {R : Type 0} (b : BindSystem R) (c : BindMigrationConfig) where
  abbrev Ends : Result String (Unit {0}) × BindWorld R → Type 0
  Ends q = q.0 ≡ ok tt → is_terminal q.1.job.status ≡ true

  raised-Ends : (x : String) (w : BindWorld R) → Ends (err x, w)
  raised-Ends x w h = cc

  perform_migration-Ends : (w : BindWorld R) → Ends (perform_migration b c w)
  unfolding perform_migration update apply_update
  perform_migration-Ends w =
      let finish : Action (BindWorld R) String (Unit {0}) =
        report (b.clock 10) migration_finished in
      let w1 : BindWorld R = record w { userdata = activate_binds c w.userdata } in
      let move = migrate_services b (service_steps b.clock c) in
      bind-elim Ends move (λ _. finish) w1 (λ u returned done. refl)
        (λ x raised. raised-Ends x (move w1).1)

  unless_problem-Ends : (p : Option Problem) (w : BindWorld R) → Ends (unless_problem b c p w)
  unfolding update apply_update
  unless_problem-Ends (some p) w = λ done. refl
  unless_problem-Ends none w =
      let make : Action (BindWorld R) String (Unit {0}) =
        on_server (b.make_folder "/volumes/sda1") in
      let announce : Action (BindWorld R) String (Unit {0}) =
        report (b.clock 4) (at_step 5 "Activating binds in NixOS config.") in
      bind-elim Ends make (λ _. announce >> perform_migration b c) w
        (λ u returned. perform_migration-Ends (announce (make w).1).1)
        (λ x raised. raised-Ends x (make w).1)

  unless_missing-Ends : (p : Option Problem) (w : BindWorld R) → Ends (unless_missing b c p w)
  unfolding update apply_update
  unless_missing-Ends (some p) w = λ done. refl
  unless_missing-Ends none w =
      let announce : Action (BindWorld R) String (Unit {0}) =
        report (b.clock 2) (at_step 0 "Checking if all volumes are available.") in
      unless_problem-Ends (volume_problem (b.block_devices w.remote) c) (announce w).1

  unless_migrated-Ends : (m : Bool) (w : BindWorld R) → Ends (unless_migrated b c m w)
  unfolding update apply_update
  unless_migrated-Ends true w = λ done. refl
  unless_migrated-Ends false w =
      let start : Action (BindWorld R) String (Unit {0}) =
        report (b.clock 1) (at_step 0 "Checking if services are present.") in
      let look : Action (BindWorld R) String (Option Problem) = on_server (find_services b) in
      bind-elim Ends look (unless_missing b c) (start w).1
        (λ p returned. unless_missing-Ends p (look (start w).1).1)
        (λ x raised. raised-Ends x (look (start w).1).1)

  -- A migration to binds that returns without an exception, refused ones included, leaves its job
  -- finished or in error.
  pub migrate_to_binds-ends :
      (w : BindWorld R)
      → (migrate_to_binds b c w).0 ≡ ok tt
      → is_terminal (migrate_to_binds b c w).1.job.status ≡ true
  unfolding migrate_to_binds
  migrate_to_binds-ends w = unless_migrated-Ends (is_bind_migrated w.userdata) w
