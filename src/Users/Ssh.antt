-- ===== src/Users/Ssh.antt =====
-- selfprivacy_api/actions/ssh.py. `is_valid_key` is `validate_ssh_public_key`.
use selfprivacy_api.Base.{
  String, Bool, true, false, not, Option, none, some, List, [], ◌∷◌, ◌++◌, str_eq, if◌then◌else◌,
  str_mem, str_remove, Result, ok, err, Action,
}
use selfprivacy_api.Users.Data.{
  UserError, user_not_found, invalid_public_key, key_already_exists, key_not_found, UserEntry,
  SshSection, UserData, Write, ensure_fields, root_keys, main_keys, users_of, entry_keys,
  is_primary, write_user_data, find_user, set_root_keys, set_main_keys, keys_or_empty,
}

unfoldable pub enable_ssh : UserData → UserData
enable_ssh d =
    let section : SshSection = elim d.ssh [
      | none ↦ record { enable = none; password_authentication = none; root_keys = none }
      | some s ↦ s
    ] in
    record d { ssh = some (record section { enable = some true }) }

pub record UserdataSshSettings : Type 0 where
  pub enable : Bool
  pub password_authentication : Bool
  pub root_keys : List String

abbrev pub bool_or : Option Bool → Bool → Bool
bool_or none b = b
bool_or (some a) b = a

unfoldable pub get_ssh_settings : UserData → UserdataSshSettings
get_ssh_settings d = elim d.ssh [
  | none ↦ record { enable = true; password_authentication = false; root_keys = [] }
  | some s ↦ record {
    enable = bool_or s.enable true;
    password_authentication = bool_or s.password_authentication false;
    root_keys = keys_or_empty s.root_keys;
  }
]

unfoldable pub set_ssh_settings : Option Bool → UserData → UserData
set_ssh_settings enable d =
    let section : SshSection = elim d.ssh [
      | none ↦ record { enable = none; password_authentication = none; root_keys = none }
      | some s ↦ s
    ] in
    record d {
      ssh = some (elim enable [ none ↦ section | some b ↦ record section { enable = some b } ]);
    }

-- `if ssh_key in keys: raise KeyAlreadyExists()`, else append
unfoldable pub add_key : String → List String → Result UserError (List String)
add_key key keys = if str_mem key keys then err key_already_exists else ok (keys ++ (key ∷ []))

unfoldable pub add_key_to_main_user : String → Write
unfolding add_key
add_key_to_main_user key d = elim (add_key key (main_keys d)) [
  | err e ↦ err e
  | ok ks ↦ ok (set_main_keys ks d)
]

unfoldable pub add_key_to_root : String → Write
unfolding add_key
add_key_to_root key d = elim (add_key key (root_keys d)) [
  | err e ↦ err e
  | ok ks ↦ ok (set_root_keys ks d)
]

-- The loop over the users, which ends at the first of the name.
unfoldable pub add_key_to_users :
    String → String → List UserEntry → Result UserError (List UserEntry)
unfolding add_key
add_key_to_users name key [] = err user_not_found
add_key_to_users name key (u ∷ us) =
    let rest = add_key_to_users name key us in
    if str_eq u.username name
    then elim (add_key key (entry_keys u)) [
      | err e ↦ err e
      | ok ks ↦ ok (record u { ssh_keys = some ks } ∷ us)
    ]
    else elim rest [ err e ↦ err e | ok us' ↦ ok (u ∷ us') ]

unfoldable pub add_key_to_regular_user : String → String → Write
unfolding add_key_to_users
add_key_to_regular_user name key d = elim (add_key_to_users name key (users_of d)) [
  | err e ↦ err e
  | ok us ↦ ok (record d { users = some us })
]

unfoldable pub create_ssh_key :
    (is_valid_key : String → Bool) → (username key : String) → Action UserData UserError (Unit {0})
unfolding write_user_data ensure_fields add_key_to_main_user add_key_to_root add_key_to_regular_user
create_ssh_key is_valid_key username key data_ =
    if not (is_valid_key key)
    then (err invalid_public_key, data_)
    else write_user_data
        (λ data'.
          let d = ensure_fields data' in
          if is_primary username d
          then add_key_to_main_user key d
          else if str_eq username "root"
          then add_key_to_root key d
          else add_key_to_regular_user username key d)
        data_

-- `if ssh_key in keys: keys.remove(ssh_key)`, else `raise KeyNotFound()`
unfoldable pub remove_key : String → List String → Result UserError (List String)
unfolding str_remove str_mem
remove_key key keys = if str_mem key keys then ok (str_remove key keys) else err key_not_found

unfoldable pub remove_key_from_users :
    String → String → List UserEntry → Result UserError (List UserEntry)
unfolding remove_key
remove_key_from_users name key [] = err user_not_found
remove_key_from_users name key (u ∷ us) =
    let rest = remove_key_from_users name key us in
    if str_eq u.username name
    then elim (remove_key key (entry_keys u)) [
      | err e ↦ err e
      | ok ks ↦ ok (record u { ssh_keys = some ks } ∷ us)
    ]
    else elim rest [ err e ↦ err e | ok us' ↦ ok (u ∷ us') ]

-- `raise UserNotFound()` stands behind the block, which has then been left and written.
abbrev after_block :
    (written : UserData)
    → Result UserError (Unit {0}) × UserData
    → Result UserError (Unit {0}) × UserData
after_block written (err user_not_found, d) = (err user_not_found, written)
after_block written (r, d) = (r, d)

unfoldable pub remove_ssh_key : (username key : String) → Action UserData UserError (Unit {0})
unfolding write_user_data ensure_fields remove_key_from_users
remove_ssh_key username key data_ = after_block (ensure_fields data_) (
    write_user_data
      (λ data'.
        let d = ensure_fields data' in
        if str_eq username "root"
        then elim (remove_key key (root_keys d)) [ err e ↦ err e | ok ks ↦ ok (set_root_keys ks d) ]
        else if is_primary username d
        then elim (remove_key key (main_keys d)) [ err e ↦ err e | ok ks ↦ ok (set_main_keys ks d) ]
        else elim (remove_key_from_users username key (users_of d)) [
          | err e ↦ err e
          | ok us ↦ ok (record d { users = some us })
        ])
      data_)

unfoldable pub get_ssh_keys : String → UserData → Result UserError (List String)
unfolding ensure_fields
get_ssh_keys username data_ =
    let d = ensure_fields data_ in
    if str_eq username "root"
    then ok (root_keys d)
    else if is_primary username d
    then ok (main_keys d)
    else elim (find_user username (users_of d)) [
      | none ↦ err user_not_found
      | some u ↦ ok (entry_keys u)
    ]
