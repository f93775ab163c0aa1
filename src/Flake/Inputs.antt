-- ===== src/Flake/Inputs.antt =====
-- `FlakeServiceManager` of selfprivacy_api/services/flake_service_manager.py: the inputs of
-- flake.nix, split into services and others when the manager is entered and joined when it is left.
-- The nix programs that read and print an expression are a parameter.
use Prim.Native.Char.{code}
use selfprivacy_api.Base.{
  String, Bool, not, ◌&&◌, Option, none, some, [], ◌∷◌, ◌==◌, if◌then◌else◌, Dict, insert, Result,
  ok, err, Action, pure, raise, ◌>>=◌,
}

abbrev pub sp_module_input_prefix : String
sp_module_input_prefix = "sp-module-"

-- `key.removeprefix(p)` where `key.startswith(p)`
unfoldable pub strip_prefix : (p key : String) → Option String
strip_prefix String.[] key = some key
strip_prefix (String.◌∷◌ p ps) String.[] = none
strip_prefix (String.◌∷◌ p ps) (String.◌∷◌ c s) =
    let rest = strip_prefix ps s in if code p == code c then rest else none

-- `f"{SP_MODULE_INPUT_PREFIX}{name}"`, by characters
unfoldable pub add_prefix : (p name : String) → String
add_prefix String.[] name = name
add_prefix (String.◌∷◌ p ps) name = String.◌∷◌ p (add_prefix ps name)

-- An input that is no service is kept as it is; of a service the code keeps the URL.
pub record Input : Type 0 where
  pub url : String
  pub rest : Dict String

abbrev pub service_input : String → Input
service_input url = record { url = url; rest = [] }

pub record FlakeServiceManager : Type 0 where
  pub inputs : Dict Input
  pub services : Dict String

abbrev pub add_service : String → String → FlakeServiceManager → FlakeServiceManager
add_service name url m = record m { services = (name, url) ∷ m.services }

abbrev pub add_input : String → Input → FlakeServiceManager → FlakeServiceManager
add_input key value m = record m { inputs = (key, value) ∷ m.inputs }

-- The loop of `__aenter__`; the keys of the evaluated inputs are distinct.
unfoldable pub split_inputs : Dict Input → FlakeServiceManager
unfolding strip_prefix
split_inputs [] = record { inputs = []; services = [] }
split_inputs ((key, value) ∷ d) =
    let m = split_inputs d in
    elim (strip_prefix sp_module_input_prefix key) [
      | none ↦ add_input key value m
      | some name ↦ add_service name value.url m
    ]

-- The loop of `__aexit__`
unfoldable pub join_inputs : Dict String → Dict Input → Dict Input
unfolding insert add_prefix
join_inputs [] inputs = inputs
join_inputs ((name, url) ∷ services) inputs =
    join_inputs services
      (insert (add_prefix sp_module_input_prefix name) (service_input url) inputs)

-- `same` is Python's `==` on the inputs and on the services.
pub record Nix (R : Type 0) : Type 0 where
  pub evaluate_inputs : Action R String (Dict Input)
  pub allow_legacy_sp_modules : Bool
  pub same : FlakeServiceManager → FlakeServiceManager → Bool
  pub legacy_modules_dir_exists : R → Bool
  pub write_flake : Dict Input → Action R String (Unit {0})

abbrev pub legacy_sp_modules_flake : String
legacy_sp_modules_flake = "LegacySpModulesFlakeError"

module _ {R : Type 0} where
  -- `__aenter__`
  unfoldable pub enter : Nix R → Action R String FlakeServiceManager
  unfolding split_inputs
  enter b = do inputs ← b.evaluate_inputs; pure (split_inputs inputs)

  -- `__aexit__` after a block that did not raise
  unfoldable pub leave : Nix R → (before after : FlakeServiceManager) → Action R String (Unit {0})
  unfolding join_inputs
  leave b before after r =
      if b.same before after
      then (ok tt, r)
      else if not b.allow_legacy_sp_modules && b.legacy_modules_dir_exists r
      then (err legacy_sp_modules_flake, r)
      else b.write_flake (join_inputs after.services after.inputs) r

  abbrev pub leave_after :
      Nix R → FlakeServiceManager → Result String FlakeServiceManager → Action R String (Unit {0})
  leave_after b before (ok after) = leave b before after
  leave_after b before (err e) = raise e

  -- `async with FlakeServiceManager() as manager`, with a block that changes the manager
  unfoldable pub with_manager :
      Nix R
      → (block : FlakeServiceManager → Result String FlakeServiceManager)
      → Action R String (Unit {0})
  unfolding enter leave
  with_manager b block = do manager ← enter b; leave_after b manager (block manager)
