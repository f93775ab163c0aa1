-- ===== src/Users/Tests.antt =====
-- The theorems on users and SSH keys at concrete inputs.
use selfprivacy_api.Base.{String, ◌≡◌, refl, Bool, true, none, some, [], ◌∷◌, str_mem, ok}
use selfprivacy_api.Users.Data.{UserEntry, UserData, ensure_fields}
use selfprivacy_api.Users.Repo.{UserEnv, create_user, delete_user}
use selfprivacy_api.Users.Ssh.{create_ssh_key, remove_ssh_key, get_ssh_keys}
use selfprivacy_api.Users.Keys.{remove-create_ssh_key}
use selfprivacy_api.Users.Accounts.{IsValid, delete-create_user}

abbrev alice : UserEntry
alice = record { username = "alice"; ssh_keys = some ("k1" ∷ []); hashed_password = none }

abbrev userdata : UserData
userdata = record {
  username = some "owner";
  hashed_master_password = none;
  ssh_keys = none;
  ssh = none;
  users = some (alice ∷ []);
}

abbrev any_key : String → Bool
any_key key = true

abbrev added_key : UserData
added_key = (create_ssh_key any_key "alice" "k2" userdata).1

remove-create_ssh_key_example :
    (d'' : UserData) × (remove_ssh_key "alice" "k2" added_key ≡ (ok tt, d''))
    × (get_ssh_keys "alice" d'' ≡ get_ssh_keys "alice" userdata)
unfolding create_ssh_key str_mem
remove-create_ssh_key_example =
    remove-create_ssh_key any_key "alice" "k2" userdata added_key refl refl

abbrev env : UserEnv
env = record { hash_password = λ s. s; uuid = "random" }

abbrev with_bob : UserData
with_bob = (create_user env "bob" none userdata).1

delete-create_user_example : delete_user "bob" with_bob ≡ (ok tt, ensure_fields userdata)
unfolding create_user
delete-create_user_example = delete-create_user env "bob" none userdata with_bob refl refl

userdata-IsValid : IsValid userdata
userdata-IsValid = record { unique = (refl, tt); free = refl }
