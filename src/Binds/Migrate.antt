-- ===== src/Binds/Migrate.antt =====
-- The task `migrate_to_binds` and `start_bind_migration` of
-- selfprivacy_api/jobs/migrate_to_binds.py.
use Prim.Native.String.{◌++◌ as str_append}
use selfprivacy_api.Base.{
  ℕ, String, Bool, true, false, not, Option, none, some, List, [], ◌∷◌, map, str_eq, str_mem,
  if◌then◌else◌, Action, pure, gets, modify, ◌>>=◌, ◌>>◌,
}
use selfprivacy_api.Jobs.Model.{Args, Job, created, running, finished, error, Update, update_of}
use selfprivacy_api.Jobs.Store.{JobStore, add, update}
use selfprivacy_api.Moving.Volume.{BlockDevice, get_block_device_by_canonical_name}
use selfprivacy_api.Binds.Config.{
  BindMigrationConfig, config_devices, is_bind_migrated, activate_binds,
}
use selfprivacy_api.Binds.Folder.{BindWorld, BindSystem, move_folder}

-- What stops a migration: the arguments of the `Jobs.update` that ends the job.
pub record Problem : Type 0 where
  pub reason : String
  pub reason_args : Args

abbrev pub failed_because : String → Problem
failed_because text_ = record { reason = text_; reason_args = none }

abbrev pub failed_for : String → (device : String) → Problem
failed_for text_ device = record {
  reason = text_;
  reason_args = some (("block_device_name", device) ∷ []);
}

-- `Jobs.update(job, status=JobStatus.ERROR, error=..., error_args=...)`
abbrev pub as_error : Problem → Update
as_error p = record (update_of error) { error_text = some p.reason; error_args = p.reason_args }

abbrev pub at_step : ℕ → String → Update
at_step progress text_ = record (update_of running) {
  progress = some progress;
  status_text = some text_;
}

abbrev pub migration_finished : Update
migration_finished = record (update_of finished) {
  progress = some 100;
  status_text = some "Migration finished.";
  result = some "Migration finished.";
}

abbrev pub already_done : Problem
already_done = failed_because "Migration already done."

abbrev pub device_not_found : String
device_not_found = "Block device %(block_device_name)s not found."

abbrev pub device_not_mounted : String
device_not_mounted = "Block device %(block_device_name)s not mounted."

-- The first of the four services that is missing.
abbrev pub missing_service : (nextcloud bitwarden gitea pleroma : Bool) → Option Problem
missing_service nextcloud bitwarden gitea pleroma =
    if not nextcloud
    then some (failed_because "Nextcloud service not found.")
    else if not bitwarden
    then some (failed_because "Bitwarden service not found.")
    else if not gitea
    then some (failed_because "Gitea service not found.")
    else if not pleroma
    then some (failed_because "Pleroma service not found.")
    else none

-- The loop that collects each device once, in the order of the configuration.
unfoldable pub required_devices : List String → (seen : List String) → List String
unfolding str_mem
required_devices [] seen = []
required_devices (x ∷ xs) seen =
    let rest = required_devices xs seen in
    let fresh = x ∷ required_devices xs (x ∷ seen) in if str_mem x seen then rest else fresh

-- The first device that the server does not have.
unfoldable pub absent_device : (names required : List String) → Option Problem
unfolding str_mem
absent_device names [] = none
absent_device names (x ∷ xs) =
    let rest = absent_device names xs in
    if str_mem x names then rest else some (failed_for device_not_found x)

abbrev pub mount_of : Option BlockDevice → (device : String) → Option Problem
mount_of none device = some (failed_for device_not_found device)
mount_of (some d) device =
    if str_mem (str_append "/volumes/" device) d.mountpoints
    then none
    else some (failed_for device_not_mounted device)

-- The first device but the root partition `sda1` that is not mounted at its place.
unfoldable pub unmounted_device : List BlockDevice → (required : List String) → Option Problem
unfolding str_mem get_block_device_by_canonical_name
unmounted_device devices [] = none
unmounted_device devices (x ∷ xs) =
    let rest = unmounted_device devices xs in
    if str_eq x "sda1"
    then rest
    else elim (mount_of (get_block_device_by_canonical_name x devices) x) [
      | none ↦ rest
      | some u ↦ some u
    ]

-- The two loops over the required devices.
unfoldable pub volume_problem : List BlockDevice → BindMigrationConfig → Option Problem
unfolding required_devices absent_device unmounted_device
volume_problem devices c =
    let required = required_devices (config_devices c) [] in
    elim (absent_device (map (λ (d : BlockDevice). d.canonical_name) devices) required) [
      | some u ↦ some u
      | none ↦ unmounted_device devices required
    ]

-- A folder below /var, its place on the volume, and its owner.
pub record Folder : Type 0 where
  pub data_path : String
  pub name : String
  pub owner : String

abbrev pub in_lib : String → String → Folder
in_lib name owner = record { data_path = str_append "/var/lib/" name; name = name; owner = owner }

abbrev pub in_var : String → String → Folder
in_var name owner = record { data_path = str_append "/var/" name; name = name; owner = owner }

pub record ServiceStep : Type 0 where
  pub now : ℕ
  pub progress : ℕ
  pub announcement : String
  pub id : String
  pub device : String
  pub folders : List Folder

-- The five services, in the order of the code.
unfoldable pub service_steps : (clock : ℕ → ℕ) → BindMigrationConfig → List ServiceStep
service_steps clock c =
    record {
      now = clock 5;
      progress = 10;
      announcement = "Migrating Nextcloud.";
      id = "nextcloud";
      device = c.nextcloud_block_device;
      folders = in_lib "nextcloud" "nextcloud" ∷ [];
    }
    ∷ record {
      now = clock 6;
      progress = 28;
      announcement = "Migrating Bitwarden.";
      id = "bitwarden";
      device = c.bitwarden_block_device;
      folders = in_lib "bitwarden" "vaultwarden" ∷ in_lib "bitwarden_rs" "vaultwarden" ∷ [];
    }
    ∷ record {
      now = clock 7;
      progress = 46;
      announcement = "Migrating Gitea.";
      id = "gitea";
      device = c.gitea_block_device;
      folders = in_lib "gitea" "gitea" ∷ [];
    }
    ∷ record {
      now = clock 8;
      progress = 64;
      announcement = "Migrating Mail server.";
      id = "simple-nixos-mailserver";
      device = c.email_block_device;
      folders = in_var "vmail" "virtualMail" ∷ in_var "sieve" "virtualMail" ∷ [];
    }
    ∷ record {
      now = clock 9;
      progress = 82;
      announcement = "Migrating Pleroma.";
      id = "pleroma";
      device = c.pleroma_block_device;
      folders = in_lib "pleroma" "pleroma" ∷ in_lib "postgresql" "postgres" ∷ [];
    }
    ∷ []

module _ {R : Type 0} where
  abbrev pub on_server : {A : Type 0} → Action R String A → Action (BindWorld R) String A
  on_server m w = ((m w.remote).0, record w { remote = (m w.remote).1 })

  -- `Jobs.update(job, ...)`
  abbrev pub report : ℕ → Update → Action (BindWorld R) String (Unit {0})
  report now u =
      modify
        λ w. record w { job = (update now u w.job w.jobs).0; jobs = (update now u w.job w.jobs).1 }

  -- The folder is left alone if it is on either of the two volumes that the code names.
  unfoldable pub migrate_folder :
      BindSystem R → (device : String) → Folder → Action R String (Unit {0})
  unfolding move_folder
  migrate_folder b device f = do
    on_root ← gets (b.path_exists (str_append "/volumes/sda1/" f.name))
    on_sdb ← gets (b.path_exists (str_append "/volumes/sdb/" f.name))
    if on_root
        then pure tt
        else if on_sdb
        then pure tt
        else move_folder b f.data_path
            (str_append "/volumes/" (str_append device (str_append "/" f.name))) f.owner f.owner

  unfoldable pub migrate_folders :
      BindSystem R → (device : String) → List Folder → Action R String (Unit {0})
  unfolding migrate_folder
  migrate_folders b device [] = pure tt
  migrate_folders b device (f ∷ fs) = migrate_folder b device f >> migrate_folders b device fs

  -- One service: it is stopped, its folders are moved, it is started.
  unfoldable pub migrate_service :
      BindSystem R → ServiceStep → Action (BindWorld R) String (Unit {0})
  unfolding migrate_folders update
  migrate_service b x = do
    report x.now (at_step x.progress x.announcement)
    on_server (b.stop x.id)
    on_server (migrate_folders b x.device x.folders)
    on_server (b.start x.id)

  unfoldable pub migrate_services :
      BindSystem R → List ServiceStep → Action (BindWorld R) String (Unit {0})
  unfolding migrate_service
  migrate_services b [] = pure tt
  migrate_services b (x ∷ xs) = migrate_service b x >> migrate_services b xs

  -- From the activation of the binds to the end
  unfoldable pub perform_migration :
      BindSystem R → BindMigrationConfig → Action (BindWorld R) String (Unit {0})
  unfolding activate_binds migrate_services service_steps update
  perform_migration b c = do
    modify (λ w. record w { userdata = activate_binds c w.userdata })
    migrate_services b (service_steps b.clock c)
    report (b.clock 10) migration_finished

  -- What follows the checks of the volumes.
  abbrev pub unless_problem :
      BindSystem R → BindMigrationConfig → Option Problem → Action (BindWorld R) String (Unit {0})
  unless_problem b c (some p) = report (b.clock 3) (as_error p)
  unless_problem b c none = do
    on_server (b.make_folder "/volumes/sda1")
    report (b.clock 4) (at_step 5 "Activating binds in NixOS config.")
    perform_migration b c

  -- What follows the look-up of the services.
  abbrev pub unless_missing :
      BindSystem R → BindMigrationConfig → Option Problem → Action (BindWorld R) String (Unit {0})
  unless_missing b c (some p) = report (b.clock 2) (as_error p)
  unless_missing b c none = do
    report (b.clock 2) (at_step 0 "Checking if all volumes are available.")
    devices ← gets (λ w. b.block_devices w.remote)
    unless_problem b c (volume_problem devices c)

  unfoldable pub find_services : BindSystem R → Action R String (Option Problem)
  find_services b = do
    nextcloud ← b.get_service_by_id "nextcloud"
    bitwarden ← b.get_service_by_id "bitwarden"
    gitea ← b.get_service_by_id "gitea"
    pleroma ← b.get_service_by_id "pleroma"
    pure (missing_service nextcloud bitwarden gitea pleroma)

  -- What follows the test of `useBinds`.
  abbrev pub unless_migrated :
      BindSystem R → BindMigrationConfig → Bool → Action (BindWorld R) String (Unit {0})
  unless_migrated b c true = report (b.clock 1) (as_error already_done)
  unless_migrated b c false = do
    report (b.clock 1) (at_step 0 "Checking if services are present.")
    missing ← on_server (find_services b)
    unless_missing b c missing

  -- `migrate_to_binds`
  unfoldable pub migrate_to_binds :
      BindSystem R → BindMigrationConfig → Action (BindWorld R) String (Unit {0})
  unfolding is_bind_migrated find_services volume_problem perform_migration update
  migrate_to_binds b c = do
    migrated ← gets (λ w. is_bind_migrated w.userdata)
    unless_migrated b c migrated

-- The job of `start_bind_migration`, which then queues the task
unfoldable pub start_bind_migration : String → ℕ → JobStore → Job × JobStore
unfolding add
start_bind_migration uid now =
    add uid now "Migrate to binds" "migrations.migrate_to_binds"
      "Migration required to use the new disk space management." none none created "" 0
