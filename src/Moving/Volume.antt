-- ===== src/Moving/Volume.antt =====
-- Block devices (selfprivacy_api/utils/block_devices.py) and where a service says it lives
-- (`Service.get_drive` and `Service.set_location` of selfprivacy_api/services/service.py).
use selfprivacy_api.Base.{
  ℕ, String, Bool, Option, none, some, List, [], ◌∷◌, str_eq, str_mem, if◌then◌else◌, not, Dict,
  lookup, insert, ok, err, Action,
}
use selfprivacy_api.Jobs.Model.{Job}
use selfprivacy_api.Jobs.Store.{JobStore}

pub record BlockDevice : Type 0 where
  pub name : String
  pub canonical_name : String
  pub fsavail : ℕ
  pub mountpoints : List String

-- `BlockDevice.is_root`
unfoldable pub is_root : BlockDevice → Bool
unfolding str_mem
is_root d = str_mem "/" d.mountpoints

-- `get_block_device_by_canonical_name`
unfoldable pub get_block_device_by_canonical_name : String → List BlockDevice → Option BlockDevice
get_block_device_by_canonical_name name [] = none
get_block_device_by_canonical_name name (d ∷ ds) =
    let rest = get_block_device_by_canonical_name name ds in
    if str_eq d.canonical_name name then some d else rest

-- `get_root_block_device`
unfoldable pub get_root_block_device : List BlockDevice → Option BlockDevice
unfolding is_root
get_root_block_device [] = none
get_root_block_device (d ∷ ds) =
    let rest = get_root_block_device ds in if is_root d then some d else rest

pub record OwnedPath : Type 0 where
  pub path : String
  pub owner : String
  pub group : String

-- What the move asks of a service.
pub record MovableService : Type 0 where
  pub id : String
  pub display_name : String
  pub is_movable : Bool
  pub owned_folders : List OwnedPath

-- `locations` is the field `location` of the modules of userdata.json, `job` the job of the move.
pub record MoveWorld (R : Type 0) : Type 0 where
  pub use_binds : Bool
  pub locations : Dict String
  pub job : Job
  pub jobs : JobStore
  pub remote : R

abbrev pub no_root_device : String
no_root_device = "No root block device found"

abbrev pub location_or : Option String → String → String
location_or none root_device = root_device
location_or (some l) root_device = l

-- `Service.get_drive`
unfoldable pub get_drive :
    {R : Type 0} → List BlockDevice → MovableService → Action (MoveWorld R) String String
unfolding get_root_block_device lookup
get_drive devices service w = (
  elim (get_root_block_device devices) [
    | none ↦ err no_root_device
    | some d ↦ ok (
        if not service.is_movable
        then d.canonical_name
        else if w.use_binds
        then location_or (lookup service.id w.locations) d.canonical_name
        else d.canonical_name)
  ],
  w,
)

-- `Service.set_location`
unfoldable pub set_location :
    {R : Type 0} → MovableService → BlockDevice → MoveWorld R → MoveWorld R
unfolding insert
set_location service volume w = record w { locations = insert service.id volume.name w.locations }
