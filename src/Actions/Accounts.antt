-- ===== src/Actions/Accounts.antt =====
-- What the actions on users keep and raise, and how they call the repositories.
use selfprivacy_api.Base.{
  ℕ, String, Bool, false, not, ◌&&◌, Option, none, some, List, [], ◌∷◌, ◌++◌, if◌then◌else◌, leb,
  keep, str_mem, Result, ok, err, Action, modify,
}
use selfprivacy_api.Users.Data.{
  UserError, root_user_is_protected, user_already_exists, user_not_found, username_not_alphanumeric,
  username_too_long, UserData, root, UserDataUser, plain_user,
}
use selfprivacy_api.Users.Repo as Json_repo
use selfprivacy_api.Users.Ssh.{get_ssh_keys}
use selfprivacy_api.Email.Store.{EmailStore, EmailEnv}
use selfprivacy_api.Kanidm.Server.{KanidmError}
use selfprivacy_api.Kanidm.Token.{non_empty}
use selfprivacy_api.Kanidm.Person.{is_default_group}
use selfprivacy_api.Actions.Names.{
  Reserved, by_prefix, by_name, not_reserved, is_username_or_prefix_reserved, str_length,
  matches_name,
}

-- `username_forbidden` has the prefix, if a prefix was the reason.
pub data ActionError : Type 0 where
  username_forbidden : (forbidden_prefix : Option String) → ActionError
  users_error : UserError → ActionError
  provider_error : KanidmError → ActionError

-- userdata.json, the email passwords in Redis, and the provider's state.
pub record Accounts (S : Type 0) : Type 0 where
  pub userdata : UserData
  pub passwords : EmailStore
  pub remote : S

pub record AccountEnv : Type 0 where
  pub users : Json_repo.UserEnv
  pub email : EmailEnv

-- `SP_DEFAULT_GROUPS`
abbrev pub sp_default_groups : List String
sp_default_groups = "sp.full_users" ∷ []

abbrev pub groups_or_default : Option (List String) → List String
groups_or_default none = sp_default_groups
groups_or_default (some gs) = gs

-- The raise of the check of a reserved name.
abbrev pub reserved_error : Reserved → Option ActionError
reserved_error (by_prefix p) = some (username_forbidden (some p))
reserved_error by_name = some (username_forbidden none)
reserved_error not_reserved = none

abbrev pub first_error : Option ActionError → (matches : Bool) → (length_ : ℕ) → Option ActionError
first_error (some e) matches length_ = some e
first_error none matches length_ =
    if not matches
    then some (users_error username_not_alphanumeric)
    else if leb 32 length_
    then some (users_error username_too_long)
    else none

-- The checks of `create_user` before its first change.
unfoldable pub check_username : String → Option ActionError
unfolding is_username_or_prefix_reserved matches_name str_length
check_username username =
    first_error (reserved_error (is_username_or_prefix_reserved username)) (matches_name username)
      (str_length username)

-- `displayname and len(displayname) >= 255`
unfoldable pub is_displayname_too_long : Option String → Bool
unfolding str_length
is_displayname_too_long displayname = elim (non_empty displayname) [
  | none ↦ false
  | some n ↦ leb 255 (str_length n)
]

-- `user.ssh_keys = get_ssh_keys(...)`, `except UserNotFound: pass`
unfoldable pub with_ssh_keys : UserDataUser → UserData → Result ActionError UserDataUser
unfolding get_ssh_keys
with_ssh_keys user d = elim (get_ssh_keys user.username d) [
  | ok ks ↦ ok (record user { ssh_keys = ks })
  | err user_not_found ↦ ok user
  | err e ↦ err (users_error e)
]

unfoldable pub all_with_ssh_keys :
    List UserDataUser → UserData → Result ActionError (List UserDataUser)
unfolding with_ssh_keys
all_with_ssh_keys [] d = ok []
all_with_ssh_keys (u ∷ us) d =
    let rest = all_with_ssh_keys us d in
    elim (with_ssh_keys u d) [
      | err e ↦ err e
      | ok u' ↦ elim rest [ err e ↦ err e | ok us' ↦ ok (u' ∷ us') ]
    ]

abbrev pub root_user : UserData → Result ActionError UserDataUser
root_user d = elim (get_ssh_keys "root" d) [
  | ok ks ↦ ok (plain_user "root" root ks)
  | err e ↦ err (users_error e)
]

abbrev pub with_root :
    (exclude_root : Bool) → UserData → List UserDataUser → Result ActionError (List UserDataUser)
with_root exclude_root d us =
    if exclude_root
    then ok us
    else elim (root_user d) [ err e ↦ err e | ok u ↦ ok (us ++ (u ∷ [])) ]

-- `except UserAlreadyExists: pass` and `except (UserNotFound, RootUserIsProtected): pass`
abbrev pub except_already_exists : Result UserError (Unit {0}) → Result ActionError (Unit {0})
except_already_exists (err user_already_exists) = ok tt
except_already_exists (err e) = err (users_error e)
except_already_exists (ok u) = ok tt

abbrev pub except_not_found_or_protected :
    Result UserError (Unit {0}) → Result ActionError (Unit {0})
except_not_found_or_protected (err user_not_found) = ok tt
except_not_found_or_protected (err root_user_is_protected) = ok tt
except_not_found_or_protected (err e) = err (users_error e)
except_not_found_or_protected (ok u) = ok tt

-- The two list comprehensions of `_get_user_group_changes`.
unfoldable pub group_changes : (current wanted : List String) → List String × List String
unfolding str_mem is_default_group
group_changes current wanted = (
  keep (λ g. not (str_mem g current) && not (is_default_group g)) wanted,
  keep (λ g. not (str_mem g wanted) && not (is_default_group g)) current,
)

abbrev pub Act : Type 0 → Type 0 → Type 0
Act S A = Action (Accounts S) ActionError A

module _ {S : Type 0} where
  abbrev pub provided :
      {A : Type 0} → Accounts S → Result KanidmError A × S → Result ActionError A × Accounts S
  provided w (ok a, s) = (ok a, record w { remote = s })
  provided w (err e, s) = (err (provider_error e), record w { remote = s })

  -- A call of the provider.
  abbrev pub on_provider : {A : Type 0} → Action S KanidmError A → Act S A
  on_provider m w = provided w (m w.remote)

  abbrev pub on_json :
      (Result UserError (Unit {0}) → Result ActionError (Unit {0}))
      → Action UserData UserError (Unit {0})
      → Act S (Unit {0})
  on_json handler m w = (handler (m w.userdata).0, record w { userdata = (m w.userdata).1 })

  abbrev pub on_passwords : (EmailStore → EmailStore) → Act S (Unit {0})
  on_passwords f = modify λ w. record w { passwords = f w.passwords }

  abbrev pub raise_some : Option ActionError → Act S (Unit {0})
  raise_some o w = (elim o [ none ↦ ok tt | some e ↦ err e ], w)

  abbrev pub from_userdata : {A : Type 0} → (UserData → Result ActionError A) → Act S A
  from_userdata f w = (f w.userdata, w)
