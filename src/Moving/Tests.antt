-- ===== src/Moving/Tests.antt =====
-- The theorems on moves at concrete inputs. The remote is a log of what was called.
use selfprivacy_api.Base.{
  String, ◌≡◌, refl, ◌⊎◌, true, none, List, [], ◌∷◌, insert, Result, ok, err, pure,
}
use selfprivacy_api.Jobs.Model.{created}
use selfprivacy_api.Jobs.Store.{JobStore, add}
use selfprivacy_api.Moving.Volume.{BlockDevice, OwnedPath, MovableService, MoveWorld}
use selfprivacy_api.Moving.Bind.{Mover, no_such_drive}
use selfprivacy_api.Moving.Move.{binds, do_move_to_volume}
use selfprivacy_api.Moving.Location.{do_move_to_volume-locations}
use selfprivacy_api.Moving.Drive.{moved_service_loses_drive}

abbrev root_disk : BlockDevice
root_disk = record {
  name = "sda1";
  canonical_name = "sda1";
  fsavail = 1000;
  mountpoints = "/" ∷ [];
}

-- A volume whose device name changed since it was mounted.
abbrev data_disk : BlockDevice
data_disk = record {
  name = "sdc";
  canonical_name = "sdb";
  fsavail = 5000;
  mountpoints = "/volumes/sdb" ∷ [];
}

abbrev folder : OwnedPath
folder = record { path = "/var/lib/gitea"; owner = "gitea"; group = "gitea" }

abbrev gitea : MovableService
gitea = record {
  id = "gitea";
  display_name = "Forgejo";
  is_movable = true;
  owned_folders = folder ∷ [];
}

abbrev mover : Mover (List String)
mover = record {
  devices = root_disk ∷ data_disk ∷ [];
  clock = λ n. n;
  path_exists = λ path log. true;
  is_dir = λ path log. true;
  path_owner = λ path log. "gitea";
  mount_bind = λ source target log. (ok tt, "mount" ∷ log);
  umount = λ target log. (ok tt, "umount" ∷ log);
  chown = λ owner path log. (ok tt, "chown" ∷ log);
  move_files = λ old new log. (ok tt, "move" ∷ log);
  storage_usage = pure 10;
}

abbrev empty_jobs : JobStore
empty_jobs = record { jobs = []; status_logs = []; progress_logs = [] }

abbrev first : MoveWorld (List String)
first = record {
  use_binds = true;
  locations = [];
  job = (add "u" 0 "Move" "services.gitea.move" "Moving" none none created "" 0 empty_jobs).0;
  jobs = empty_jobs;
  remote = [];
}

abbrev outcome : Result String (Unit {0}) × MoveWorld (List String)
outcome = do_move_to_volume mover gitea data_disk first

do_move_to_volume-locations_example :
    ((outcome.0 ≡ ok tt) × (outcome.1.locations ≡ insert "gitea" "sdc" []))
    ⊎ ((e : String) × (outcome.0 ≡ err e) × (outcome.1.locations ≡ []))
do_move_to_volume-locations_example =
    do_move_to_volume-locations mover gitea data_disk first outcome.1 outcome.0 refl

moved_service_loses_drive_example : binds mover gitea outcome.1 ≡ (err no_such_drive, outcome.1)
unfolding do_move_to_volume
moved_service_loses_drive_example =
    moved_service_loses_drive mover gitea data_disk first outcome.1 root_disk folder [] refl refl
      refl refl refl refl
