-- ===== src/Users/Data.antt =====
-- The parts of userdata.json that hold users and SSH keys, and how they are read and written
-- (`ensure_ssh_and_users_fields_exist` and `WriteUserData` of selfprivacy_api/utils/__init__.py,
-- selfprivacy_api/models/user.py). An absent field of the JSON is `none`.
use selfprivacy_api.Base.{
  String, Bool, false, Option, none, some, List, [], ◌∷◌, str_eq, if◌then◌else◌, Result, ok, err,
  Action,
}

pub data UserError : Type 0 where
  password_is_empty root_user_is_protected user_already_exists user_not_found : UserError
  username_forbidden username_not_alphanumeric username_too_long displayname_too_long : UserError
  invalid_public_key key_already_exists key_not_found : UserError

pub record UserEntry : Type 0 where
  pub username : String
  pub ssh_keys : Option (List String)
  pub hashed_password : Option String

pub record SshSection : Type 0 where
  pub enable : Option Bool
  pub password_authentication : Option Bool
  pub root_keys : Option (List String)

pub record UserData : Type 0 where
  pub username : Option String
  pub hashed_master_password : Option String
  pub ssh_keys : Option (List String)
  pub ssh : Option SshSection
  pub users : Option (List UserEntry)

pub data UserDataUserOrigin : Type 0 where
  normal primary root : UserDataUserOrigin

pub record UserDataUser : Type 0 where
  pub username : String
  pub user_type : UserDataUserOrigin
  pub ssh_keys : List String
  pub directmemberof : Option (List String)
  pub memberof : Option (List String)
  pub display_name : Option String
  pub email : Option String

-- `UserDataUser(...)` with the defaults of the other fields. The email credentials are filled in
-- by the GraphQL types.
abbrev pub plain_user : String → UserDataUserOrigin → List String → UserDataUser
plain_user username user_type ssh_keys = record {
  username = username;
  user_type = user_type;
  ssh_keys = ssh_keys;
  directmemberof = some [];
  memberof = some [];
  display_name = none;
  email = none;
}

abbrev pub ensure_ssh : Option SshSection → SshSection
ensure_ssh none = record { enable = none; password_authentication = none; root_keys = some [] }
ensure_ssh (some s) = record s {
  root_keys = elim s.root_keys [ none ↦ some [] | some ks ↦ some ks ];
}

abbrev pub some_list {ℓ} : {A : Type ℓ} → Option (List A) → Option (List A)
some_list none = some []
some_list (some xs) = some xs

-- `ensure_ssh_and_users_fields_exist`
unfoldable pub ensure_fields : UserData → UserData
ensure_fields d = record d {
  ssh = some (ensure_ssh d.ssh);
  ssh_keys = some_list d.ssh_keys;
  users = some_list d.users;
}

-- `x.get(k, [])`
abbrev pub keys_or_empty {ℓ} : {A : Type ℓ} → Option (List A) → List A
keys_or_empty none = []
keys_or_empty (some xs) = xs

-- The fields of data that `ensure_fields` went over.
abbrev pub root_keys : UserData → List String
root_keys d = elim d.ssh [ none ↦ [] | some s ↦ keys_or_empty s.root_keys ]

abbrev pub main_keys : UserData → List String
main_keys d = keys_or_empty d.ssh_keys

abbrev pub users_of : UserData → List UserEntry
users_of d = keys_or_empty d.users

abbrev pub entry_keys : UserEntry → List String
entry_keys e = keys_or_empty e.ssh_keys

-- `username == data.get("username", None)`
abbrev pub is_primary : String → UserData → Bool
is_primary username d = elim d.username [ none ↦ false | some u ↦ str_eq u username ]

abbrev pub Write : Type 0
Write = UserData → Result UserError UserData

-- `with WriteUserData() as data`: the file is written only if the block does not raise.
unfoldable pub write_user_data : Write → Action UserData UserError (Unit {0})
write_user_data block d = elim (block d) [ ok d' ↦ (ok tt, d') | err e ↦ (err e, d) ]

abbrev pub find_user : String → List UserEntry → Option UserEntry
find_user name [] = none
find_user name (u ∷ us) = if str_eq u.username name then some u else find_user name us

abbrev pub set_root_keys : List String → UserData → UserData
set_root_keys ks d = record d {
  ssh = elim d.ssh [ none ↦ none | some s ↦ some (record s { root_keys = some ks }) ];
}

abbrev pub set_main_keys : List String → UserData → UserData
set_main_keys ks d = record d { ssh_keys = some ks }
