-- ===== src/Binds/Folder.antt =====
-- `move_folder` of selfprivacy_api/jobs/migrate_to_binds.py. The file system, `chown`, `mount` and
-- the services are a parameter over a remote state.
use selfprivacy_api.Base.{
  ℕ, String, Bool, List, [], ◌∷◌, if◌then◌else◌, Result, ok, err, Action, pure, gets, ◌>>=◌, ◌>>◌,
}
use selfprivacy_api.Jobs.Model.{Job}
use selfprivacy_api.Jobs.Store.{JobStore}
use selfprivacy_api.Moving.Volume.{BlockDevice}
use selfprivacy_api.Binds.Config.{UserData}
use Prim.Native.String.{◌++◌ as str_append}

pub record BindWorld (R : Type 0) : Type 0 where
  pub userdata : UserData
  pub job : Job
  pub jobs : JobStore
  pub remote : R

-- How a call ends: `unwilling` is the exception its caller catches (`LookupError` of `chown`,
-- `CalledProcessError` of a program), `raised` any other.
pub data Tried : Type 0 where
  fine : Tried
  unwilling : Tried
  raised : String → Tried

-- A service is known by its id here; `get_service_by_id` says whether there is one.
pub record BindSystem (R : Type 0) : Type 0 where
  pub clock : ℕ → ℕ
  pub get_service_by_id : String → Action R String Bool
  pub block_devices : R → List BlockDevice
  pub path_exists : String → R → Bool
  pub make_folder : String → Action R String (Unit {0})
  pub move : (source target : String) → Action R String (Unit {0})
  pub chown : (path user group : String) → R → Tried × R
  pub run_program : List String → R → Tried × R
  pub stop : String → Action R String (Unit {0})
  pub start : String → Action R String (Unit {0})

module _ {R : Type 0} where
  -- `except LookupError: pass`, and `except CalledProcessError` that logs
  abbrev pub tolerate : Tried × R → Result String (Unit {0}) × R
  tolerate (fine, x) = (ok tt, x)
  tolerate (unwilling, x) = (ok tt, x)
  tolerate (raised e, x) = (err e, x)

  -- Two calls in one `try` block: the second runs if the first went well.
  abbrev pub and_then : (R → Tried × R) → Tried × R → Tried × R
  and_then f (fine, x) = f x
  and_then f (unwilling, x) = (unwilling, x)
  and_then f (raised e, x) = (raised e, x)

  -- What follows the making of the data folder; an exception there is logged.
  abbrev pub own_and_mount :
      BindSystem R
      → (data_path bind_path user group : String) → Result String (Unit {0})
      → Action R String (Unit {0})
  own_and_mount b data_path bind_path user group (err e) = pure tt
  own_and_mount b data_path bind_path user group (ok u) = do
    λ x. tolerate (and_then (b.chown data_path user group) (b.chown bind_path user group x))
    λ x. tolerate (b.run_program ("mount" ∷ "--bind" ∷ bind_path ∷ data_path ∷ []) x)
    λ x.
        tolerate (
          b.run_program ("chown" ∷ "-R" ∷ str_append user (str_append ":" group) ∷ data_path ∷ [])
            x)

  abbrev pub caught :
      (Result String (Unit {0}) → Action R String (Unit {0}))
      → Result String (Unit {0}) × R
      → Result String (Unit {0}) × R
  caught f (r, x) = f r x

  -- `move_folder`
  unfoldable pub move_folder :
      BindSystem R → (data_path bind_path user group : String) → Action R String (Unit {0})
  move_folder b data_path bind_path user group = do
    there ← gets (b.path_exists data_path)
    if there
        then (b.move data_path bind_path >> λ x.
            caught (own_and_mount b data_path bind_path user group) (b.make_folder data_path x))
        else pure tt
