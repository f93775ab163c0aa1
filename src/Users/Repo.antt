-- ===== src/Users/Repo.antt =====
-- `JsonUserRepository` (selfprivacy_api/repositories/users/json_user_repository.py).
use selfprivacy_api.Base.{
  String, Bool, Option, none, some, List, [], ◌∷◌, ◌++◌, map, str_eq, if◌then◌else◌, is_some,
  Result, ok, err, Action,
}
use selfprivacy_api.Users.Data.{
  UserError, password_is_empty, root_user_is_protected, user_already_exists, user_not_found,
  UserEntry, UserData, normal, primary, root, UserDataUser, plain_user, ensure_fields, root_keys,
  main_keys, users_of, entry_keys, is_primary, write_user_data, find_user,
}

-- The password hash and the random password `str(uuid4())` of one call.
pub record UserEnv : Type 0 where
  pub hash_password : String → String
  pub uuid : String

unfoldable pub check_and_hash_password : UserEnv → String → Result UserError String
check_and_hash_password env password =
    if str_eq password "" then err password_is_empty else ok (env.hash_password password)

abbrev pub chosen_password : UserEnv → Option String → String
chosen_password env none = env.uuid
chosen_password env (some p) = p

unfoldable pub get_users : (exclude_primary exclude_root : Bool) → UserData → List UserDataUser
unfolding ensure_fields
get_users exclude_primary exclude_root data_ =
    let d = ensure_fields data_ in
    let normal_users =
      map (λ (u : UserEntry). plain_user u.username normal (entry_keys u)) (users_of d) in
    let primary_user : List UserDataUser = elim d.username [
      | none ↦ []
      | some name ↦ if exclude_primary then [] else plain_user name primary (main_keys d) ∷ []
    ] in
    let root_user : List UserDataUser =
      if exclude_root then [] else plain_user "root" root (root_keys d) ∷ [] in
    normal_users ++ (primary_user ++ root_user)

abbrev pub has_user : String → UserData → Bool
has_user name d = is_some (find_user name (users_of d))

-- The check under `ReadUserData` comes before the write.
unfoldable pub create_user :
    UserEnv
    → (username : String) → (password : Option String) → Action UserData UserError (Unit {0})
unfolding check_and_hash_password ensure_fields write_user_data
create_user env username password data_ =
    elim (check_and_hash_password env (chosen_password env password)) [
      | err e ↦ (err e, data_)
      | ok hashed ↦
          if is_primary username (ensure_fields data_)
          then (err user_already_exists, data_)
          else if has_user username (ensure_fields data_)
          then (err user_already_exists, data_)
          else write_user_data
              (λ data'.
                let d = ensure_fields data' in
                let new_user : UserEntry = record {
                  username = username;
                  ssh_keys = some [];
                  hashed_password = some hashed;
                } in
                ok (record d { users = some (users_of d ++ (new_user ∷ [])) }))
              data_
    ]

-- The loop that removes the first user of the name.
unfoldable pub remove_user : String → List UserEntry → List UserEntry
remove_user name [] = []
remove_user name (u ∷ us) = if str_eq u.username name then us else u ∷ remove_user name us

unfoldable pub delete_user : String → Action UserData UserError (Unit {0})
unfolding remove_user ensure_fields write_user_data
delete_user username = write_user_data λ data'.
    let d = ensure_fields data' in
    if is_primary username d
    then err root_user_is_protected
    else if str_eq username "root"
    then err root_user_is_protected
    else if has_user username d
    then ok (record d { users = some (remove_user username (users_of d)) })
    else err user_not_found

unfoldable pub set_password : String → String → List UserEntry → List UserEntry
set_password name hashed [] = []
set_password name hashed (u ∷ us) =
    if str_eq u.username name
    then record u { hashed_password = some hashed } ∷ us
    else u ∷ set_password name hashed us

unfoldable pub update_user :
    UserEnv
    → (username : String) → (password : Option String) → Action UserData UserError (Unit {0})
unfolding check_and_hash_password set_password ensure_fields write_user_data
update_user env username password data_ =
    elim (check_and_hash_password env (chosen_password env password)) [
      | err e ↦ (err e, data_)
      | ok hashed ↦
          write_user_data
            (λ data'.
              let d = ensure_fields data' in
              if is_primary username d
              then ok (record d { hashed_master_password = some hashed })
              else if has_user username d
              then ok (record d { users = some (set_password username hashed (users_of d)) })
              else err user_not_found)
            data_
    ]

unfoldable pub get_user_by_username : String → UserData → Option UserDataUser
unfolding ensure_fields
get_user_by_username username data_ =
    let d = ensure_fields data_ in
    if str_eq username "root"
    then some (plain_user "root" root (root_keys d))
    else if is_primary username d
    then some (plain_user username primary (main_keys d))
    else elim (find_user username (users_of d)) [
      | none ↦ none
      | some u ↦ some (plain_user username normal (entry_keys u))
    ]
