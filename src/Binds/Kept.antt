-- ===== src/Binds/Kept.antt =====
-- The moving of the folders does not change userdata.json.
use selfprivacy_api.Base.{◌∷◌, ◌>>◌, Action, refl, [], List, bind-Keeps, Keeps, String}
use selfprivacy_api.Binds.Config.{UserData}
use selfprivacy_api.Binds.Folder.{BindWorld, BindSystem}
use selfprivacy_api.Binds.Migrate.{
  at_step, report, ServiceStep, migrate_folders, on_server, migrate_service, migrate_services,
}

abbrev pub data_of : {R : Type 0} → BindWorld R → UserData
data_of w = w.userdata

module _ {R : Type 0} (b : BindSystem R) where
  migrate_service-Keeps : (x : ServiceStep) → Keeps data_of (migrate_service b x)
  unfolding migrate_service
  migrate_service-Keeps x =
      let announce : Action (BindWorld R) String (Unit {0}) =
        report x.now (at_step x.progress x.announcement) in
      let stop : Action (BindWorld R) String (Unit {0}) = on_server (b.stop x.id) in
      let move : Action (BindWorld R) String (Unit {0}) =
        on_server (migrate_folders b x.device x.folders) in
      let start : Action (BindWorld R) String (Unit {0}) = on_server (b.start x.id) in
      bind-Keeps data_of announce (λ _. stop >> (move >> start)) (λ w. refl)
        (λ _.
          bind-Keeps data_of stop (λ _. move >> start) (λ w. refl)
            (λ _. bind-Keeps data_of move (λ _. start) (λ w. refl) (λ _ w. refl)))

  pub migrate_services-Keeps : (xs : List ServiceStep) → Keeps data_of (migrate_services b xs)
  unfolding migrate_services
  migrate_services-Keeps [] w = refl
  migrate_services-Keeps (x ∷ xs) w =
      bind-Keeps data_of (migrate_service b x) (λ _. migrate_services b xs)
        (migrate_service-Keeps x) (λ _. migrate_services-Keeps xs) w
