-- ===== src/Registry/Stash.antt =====
-- The settings of the server in a backup: `stash_a_path`, `retrieve_stashed_path`, `merge_settings`
-- and the hooks of `ServiceManager` (selfprivacy_api/services/__init__.py). The commands on files,
-- and what the other services answer, are a parameter over a remote state.
use Prim.Native.Char.{code}
use Prim.Native.String.{◌++◌ as str_append}
use selfprivacy_api.Base.{
  ℕ, String, Bool, false, Option, none, some, List, [], ◌∷◌, ◌==◌, ◌||◌, if◌then◌else◌, Dict,
  lookup, insert, Action, pure, raise, gets, modify, ◌>>=◌, ◌>>◌,
}
use selfprivacy_api.Backup.Run.{Run, update_job, on_remote}
use selfprivacy_api.Backup.Restore.{status_text}
use selfprivacy_api.Jobs.Model.{running}
use selfprivacy_api.Moving.Volume.{BlockDevice, get_block_device_by_canonical_name}

-- `movable_services` has the id and the drive of each movable service of the listing without remote
-- services. `rmtree` ignores errors.
pub record Stasher (R : Type 0) : Type 0 where
  pub is_dir : String → R → Bool
  pub rmtree : String → R → R
  pub copytree : (source target : String) → Action R String (Unit {0})
  pub copyfile : (source target : String) → Action R String (Unit {0})
  pub makedirs : String → Action R String (Unit {0})
  pub movable_services : Action R String (List (String × String))
  pub devices : List BlockDevice
  pub set_service_location : (id : String) → BlockDevice → Action R String (Unit {0})

-- `CONFIG_STASH_DIR`, the only folder of `ServiceManager`
abbrev pub dump_dir : String
dump_dir = "/etc/selfprivacy/dump"

-- `USERDATA_FILE`, `SECRETS_FILE` and `DKIM_DIR`
abbrev pub stashed_paths : List String
stashed_paths = "/etc/nixos/userdata.json" ∷ "/etc/selfprivacy/secrets.json" ∷ "/var/dkim" ∷ []

unfoldable pub has_slash : String → Bool
has_slash String.[] = false
has_slash (String.◌∷◌ c s) = code c == 47 || has_slash s

-- `path.basename`
unfoldable pub basename : String → String
unfolding has_slash
basename String.[] = ""
basename (String.◌∷◌ c s) =
    let rest = basename s in
    if has_slash s then rest else if code c == 47 then s else String.◌∷◌ c s

-- `stash_for`
unfoldable pub stash_for : (p : String) → String
unfolding basename
stash_for p = str_append dump_dir (str_append "/" (basename p))

abbrev pub key_error : String
key_error = "no location was kept for the service"

-- `locations[service.get_id()] = service.get_drive()`
abbrev pub locations_of : List (String × String) → Dict String → Dict String
locations_of [] locations = locations
locations_of ((id, drive) ∷ services) locations = locations_of services (insert id drive locations)

module _ {R : Type 0} where
  abbrev pub clearing : Stasher R → String → Action R String (Unit {0})
  clearing b p = modify (b.rmtree p)

  -- `stash_a_path`
  unfoldable pub stash_a_path : Stasher R → (p : String) → Action R String (Unit {0})
  unfolding stash_for
  stash_a_path b p = do
    folder ← gets (b.is_dir p)
    if folder
        then clearing b (stash_for p) >> b.copytree p (stash_for p)
        else b.copyfile p (stash_for p)

  -- `retrieve_stashed_path`
  unfoldable pub retrieve_stashed_path : Stasher R → (p : String) → Action R String (Unit {0})
  unfolding stash_for
  retrieve_stashed_path b p = do
    folder ← gets (b.is_dir p)
    if folder then clearing b p >> b.copytree (stash_for p) p else b.copyfile (stash_for p) p

  abbrev pub each_path :
      (String → Action R String (Unit {0})) → List String → Action R String (Unit {0})
  each_path f [] = pure tt
  each_path f (p ∷ ps) = f p >> each_path f ps

  abbrev pub put_back : Stasher R → (id : String) → Option String → Action R String (Unit {0})
  put_back b id none = raise key_error
  put_back b id (some drive) = elim (get_block_device_by_canonical_name drive b.devices) [
    | none ↦ pure tt
    | some device ↦ b.set_service_location id device
  ]

  -- The second loop of `merge_settings`: a location is put back if its device is still there.
  unfoldable pub restore_locations :
      Stasher R → Dict String → List (String × String) → Action R String (Unit {0})
  unfolding lookup get_block_device_by_canonical_name
  restore_locations b locations [] = pure tt
  restore_locations b locations ((id, _) ∷ services) =
      put_back b id (lookup id locations) >> restore_locations b locations services

  -- `merge_settings`
  unfoldable pub merge_settings : Stasher R → Action R String (Unit {0})
  unfolding retrieve_stashed_path restore_locations insert
  merge_settings b = do
    before ← b.movable_services
    each_path (retrieve_stashed_path b) stashed_paths
    after ← b.movable_services
    restore_locations b (locations_of before []) after

  -- `pre_backup` of `ServiceManager`
  unfoldable pub pre_backup : Stasher R → (now : ℕ) → Run R (Unit {0})
  unfolding stash_a_path update_job
  pre_backup b now = do
    modify (update_job now (status_text running "Stashing settings"))
    on_remote
        (clearing b dump_dir >> (b.makedirs dump_dir >> each_path (stash_a_path b) stashed_paths))

  -- `post_backup`
  unfoldable pub post_backup : Stasher R → Run R (Unit {0})
  post_backup b = on_remote (clearing b dump_dir)

  -- `post_restore`
  unfoldable pub post_restore : Stasher R → Run R (Unit {0})
  unfolding merge_settings
  post_restore b = on_remote (merge_settings b >> clearing b dump_dir)
