-- ===== src/Moving/Bind.antt =====
-- `Bind` of selfprivacy_api/services/owned_path.py: a folder on a volume that is mounted where the
-- service needs it. `mount`, `umount`, `chown`, the move of files and the file system are a
-- parameter over a remote state.
use Prim.Native.Char.{code}
use Prim.Native.String.{◌++◌ as str_append}
use selfprivacy_api.Base.{
  ℕ, String, Bool, false, not, ◌||◌, none, some, List, str_eq, ◌==◌, if◌then◌else◌, Result, ok, err,
  Action, gets, raise_if, ◌>>=◌, ◌>>◌,
}
use selfprivacy_api.Moving.Volume.{
  BlockDevice, OwnedPath, MoveWorld, get_block_device_by_canonical_name,
}

pub record Bind : Type 0 where
  pub binding_path : String
  pub owner : String
  pub group : String
  pub drive : BlockDevice

-- `path_owner` is asked of a directory that is there. A call that fails says why.
pub record Mover (R : Type 0) : Type 0 where
  pub devices : List BlockDevice
  pub clock : ℕ → ℕ
  pub path_exists : String → R → Bool
  pub is_dir : String → R → Bool
  pub path_owner : String → R → String
  pub mount_bind : (source target : String) → Action R String (Unit {0})
  pub umount : (target : String) → Action R String (Unit {0})
  pub chown : (owner path : String) → Action R String (Unit {0})
  pub move_files : (old new : String) → Action R String (Unit {0})
  pub storage_usage : Action R String ℕ

unfoldable pub has_slash : String → Bool
has_slash String.[] = false
has_slash (String.◌∷◌ c s) = code c == b'/' || has_slash s

-- `path.split("/")[-1]`
unfoldable pub after_last_slash : String → String
unfolding has_slash
after_last_slash String.[] = String.[]
after_last_slash (String.◌∷◌ c s) =
    let rest = after_last_slash s in
    if has_slash s then rest else if code c == b'/' then s else String.◌∷◌ c s

-- `bind_foldername`
unfoldable pub bind_foldername : Bind → String
unfolding after_last_slash
bind_foldername x = after_last_slash x.binding_path

unfoldable pub location_at_volume : Bind → String
unfolding bind_foldername
location_at_volume x =
    str_append "/volumes/" (str_append x.drive.canonical_name (str_append "/" (bind_foldername x)))

-- The texts of the errors, without the names in them.
abbrev pub no_such_drive : String
no_such_drive = "No such drive"

abbrev pub directory_not_found : String
directory_not_found = "directory is not found"

abbrev pub not_a_directory : String
not_a_directory = "path is not a directory"

abbrev pub wrong_owner : String
wrong_owner = "directory has another owner"

abbrev pub no_path_to_bind : String
no_path_to_bind = "cannot bind to a non-existing path"

abbrev pub no_path_to_unbind : String
no_path_to_unbind = "cannot unbind a non-existing path"

unfoldable pub from_owned_path : List BlockDevice → OwnedPath → String → Result String Bind
unfolding get_block_device_by_canonical_name
from_owned_path devices p drive_name =
    elim (get_block_device_by_canonical_name drive_name devices) [
      | none ↦ err no_such_drive
      | some d ↦ ok (record { binding_path = p.path; owner = p.owner; group = p.group; drive = d })
    ]

module _ {R : Type 0} where
  abbrev pub moved_to :
      {A : Type 0} → MoveWorld R → Result String A × R → Result String A × MoveWorld R
  moved_to w (r, remote') = (r, record w { remote = remote' })

  -- A call on the remote alone.
  abbrev pub on_files : {A : Type 0} → Action R String A → Action (MoveWorld R) String A
  on_files m w = moved_to w (m w.remote)

  -- `Bind.validate`
  unfoldable pub validate : Mover R → Bind → Action (MoveWorld R) String (Unit {0})
  unfolding location_at_volume
  validate b x = do
    found ← gets (λ w. b.path_exists (location_at_volume x) w.remote)
    raise_if (not found) directory_not_found
    is_directory ← gets (λ w. b.is_dir (location_at_volume x) w.remote)
    raise_if (not is_directory) not_a_directory
    owner ← gets (λ w. b.path_owner (location_at_volume x) w.remote)
    raise_if (not (str_eq owner x.owner)) wrong_owner

  -- `Bind.bind`
  unfoldable pub bind : Mover R → Bind → Action (MoveWorld R) String (Unit {0})
  unfolding location_at_volume
  bind b x = do
    found ← gets (λ w. b.path_exists x.binding_path w.remote)
    raise_if (not found) no_path_to_bind
    on_files (b.mount_bind (location_at_volume x) x.binding_path)

  -- `Bind.unbind`
  unfoldable pub unbind : Mover R → Bind → Action (MoveWorld R) String (Unit {0})
  unbind b x = do
    found ← gets (λ w. b.path_exists x.binding_path w.remote)
    raise_if (not found) no_path_to_unbind
    on_files (b.umount x.binding_path)

  -- `Bind.ensure_ownership`
  unfoldable pub ensure_ownership : Mover R → Bind → Action (MoveWorld R) String (Unit {0})
  unfolding location_at_volume
  ensure_ownership b x =
      on_files (b.chown (str_append x.owner (str_append ":" x.group)) (location_at_volume x))
