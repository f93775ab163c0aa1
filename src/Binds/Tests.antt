-- ===== src/Binds/Tests.antt =====
-- The theorems on the migration to binds at concrete inputs. The remote is a log of what was
-- called.
use selfprivacy_api.Binds.Ends.{migrate_to_binds-ends}
use selfprivacy_api.Binds.Migrate.{start_bind_migration, migrate_to_binds}
use selfprivacy_api.Binds.Final.{second_migration_refused}
use selfprivacy_api.Jobs.Store.{JobStore}
use selfprivacy_api.Binds.Config.{
  activate_binds-field_of, field_of, activate_binds, BindMigrationConfig, UserData,
  is_bind_migrated,
}
use selfprivacy_api.Binds.Folder.{fine, BindSystem, BindWorld}
use selfprivacy_api.Moving.Volume.{BlockDevice}
use mathlib.Core.Bool.{false≢true}
use selfprivacy_api.Base.{
  ◌∙◌, sym, ap, str_eq, String, List, ◌≢◌, refl, ◌≡◌, [], ok, err, none, some, true, false, ◌∷◌,
}
use selfprivacy_api.Jobs.Model.{JobStatus, is_terminal}

abbrev root_disk : BlockDevice
root_disk = record {
  name = "sda1";
  canonical_name = "sda1";
  fsavail = 1000;
  mountpoints = "/" ∷ [];
}

abbrev data_disk : BlockDevice
data_disk = record {
  name = "sdb";
  canonical_name = "sdb";
  fsavail = 5000;
  mountpoints = "/volumes/sdb" ∷ [];
}

-- `shutil.move` of the first folder fails.
abbrev system : BindSystem (List String)
system = record {
  clock = λ n. n;
  get_service_by_id = λ id log. (ok true, log);
  block_devices = λ log. root_disk ∷ data_disk ∷ [];
  path_exists = λ path log. str_eq path "/var/lib/nextcloud";
  make_folder = λ path log. (ok tt, "mkdir" ∷ log);
  move = λ source target log. (err "No space left on device", "move" ∷ log);
  chown = λ path user group log. (fine, "chown" ∷ log);
  run_program = λ command log. (fine, "run" ∷ log);
  stop = λ id log. (ok tt, "stop" ∷ log);
  start = λ id log. (ok tt, "start" ∷ log);
}

-- The same, with no folder to move.
abbrev empty_system : BindSystem (List String)
empty_system = record system { path_exists = λ path log. false }

abbrev config : BindMigrationConfig
config = record {
  email_block_device = "sda1";
  bitwarden_block_device = "sda1";
  gitea_block_device = "sdb";
  nextcloud_block_device = "sdb";
  pleroma_block_device = "sda1";
}

abbrev userdata : UserData
userdata = record {
  use_binds = none;
  sections = ("gitea", ("enable", "true") ∷ ("location", "old") ∷ []) ∷ [];
}

abbrev empty_jobs : JobStore
empty_jobs = record { jobs = []; status_logs = []; progress_logs = [] }

abbrev before : BindWorld (List String)
before = record {
  userdata = userdata;
  job = (start_bind_migration "u" 0 empty_jobs).0;
  jobs = (start_bind_migration "u" 0 empty_jobs).1;
  remote = [];
}

activate_binds-field_of_example :
    (is_bind_migrated (activate_binds config userdata) ≡ true)
    × (field_of "gitea" "enable" (activate_binds config userdata) ≡ some "true")
unfolding field_of activate_binds
activate_binds-field_of_example = activate_binds-field_of config userdata "gitea" "enable"

migrated_data : is_bind_migrated (migrate_to_binds system config before).1.userdata ≡ true
unfolding migrate_to_binds
migrated_data = refl

changed : (migrate_to_binds system config before).1.userdata ≢ before.userdata
unfolding is_bind_migrated
changed h = absurd (false≢true (ap is_bind_migrated (sym h) ∙ migrated_data))

second_migration_refused_example :
    ((migrate_to_binds system config (migrate_to_binds system config before).1).1.userdata
      ≡ (migrate_to_binds system config before).1.userdata)
    × ((migrate_to_binds system config (migrate_to_binds system config before).1).1.remote
        ≡ (migrate_to_binds system config before).1.remote)
    × ((migrate_to_binds system config (migrate_to_binds system config before).1).1.job.status
        ≡ JobStatus.error)
second_migration_refused_example = second_migration_refused system config config before changed

migrate_to_binds-ends_example :
    is_terminal (migrate_to_binds empty_system config before).1.job.status ≡ true
unfolding migrate_to_binds
migrate_to_binds-ends_example = migrate_to_binds-ends empty_system config before refl
