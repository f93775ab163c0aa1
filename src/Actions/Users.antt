-- ===== src/Actions/Users.antt =====
-- The actions of selfprivacy_api/actions/users.py over an active provider that is not the JSON
-- repository.
use selfprivacy_api.Base.{
  String, Bool, true, false, Option, none, some, List, [], ◌∷◌, str_eq, if◌then◌else◌, ok, err,
  pure, raise_if, ◌>>=◌, ◌>>◌,
}
use selfprivacy_api.Users.Data.{
  root_user_is_protected, displayname_too_long, UserDataUser, keys_or_empty,
}
use selfprivacy_api.Users.Repo as Json_repo
use selfprivacy_api.Users.Ssh.{get_ssh_keys}
use selfprivacy_api.Email.Store.{
  Matches, add_email_password, update_legacy_email_password_hash, delete_all_email_passwords_hashes,
}
use selfprivacy_api.Kanidm.Token.{non_empty}
use selfprivacy_api.Kanidm.Person.{Group}
use selfprivacy_api.Actions.Provider.{Provider}
use selfprivacy_api.Actions.Accounts.{
  users_error, provider_error, AccountEnv, groups_or_default, check_username,
  is_displayname_too_long, with_ssh_keys, all_with_ssh_keys, root_user, with_root,
  except_already_exists, except_not_found_or_protected, group_changes, Act, on_provider, on_json,
  on_passwords, raise_some, from_userdata,
}

module _ {S : Type 0} where
  unfoldable pub get_users :
      Provider S → (exclude_primary exclude_root : Bool) → Act S (List UserDataUser)
  unfolding all_with_ssh_keys get_ssh_keys
  get_users p exclude_primary exclude_root = do
    users ← on_provider (p.get_users exclude_primary)
    users' ← from_userdata (all_with_ssh_keys users)
    from_userdata λ d. with_root exclude_root d users'

  -- `if password: add_email_password(...)`
  unfoldable pub add_password : AccountEnv → String → Option String → Act S (Unit {0})
  unfolding add_email_password
  add_password env username password = elim (non_empty password) [
    | none ↦ pure tt
    | some text_ ↦ on_passwords (add_email_password env.email username text_ none true false none)
  ]

  unfoldable pub create_user :
      Provider S
      → AccountEnv
      → (username : String) → (password : Option String) → (directmemberof : Option (List String))
      → (displayname : Option String) → Act S (Unit {0})
  unfolding check_username add_password is_displayname_too_long
  create_user p env username password directmemberof displayname = do
    raise_some (check_username username)
    add_password env username password
    raise_if (is_displayname_too_long displayname) (users_error displayname_too_long)
    on_json except_already_exists (Json_repo.create_user env.users username (some env.users.uuid))
    on_provider (p.create_user username (some (groups_or_default directmemberof)) displayname)

  -- `finally` runs whether or not the provider finds the user.
  abbrev pub find_and_forget : Provider S → String → Act S UserDataUser
  find_and_forget p username w =
      let found = p.get_user_by_username username w.remote in
      let (forgotten, w1) =
        on_json except_not_found_or_protected (Json_repo.delete_user username)
          (record w { remote = found.1 }) in
      (
        elim forgotten [
          | err e ↦ err e
          | ok _ ↦ elim found.0 [ ok u ↦ ok u | err e ↦ err (provider_error e) ]
        ],
        w1,
      )

  unfoldable pub delete_user : Matches → Provider S → (username : String) → Act S (Unit {0})
  unfolding delete_all_email_passwords_hashes
  delete_user matches p username = do
    raise_if (str_eq username "root") (users_error root_user_is_protected)
    _ ← find_and_forget p username
    on_passwords (delete_all_email_passwords_hashes matches username)
    on_provider (p.delete_user username)

  -- `_validate_user_update`
  unfoldable pub validate_user_update :
      (username : String) → (displayname : Option String) → Act S (Unit {0})
  unfolding is_displayname_too_long
  validate_user_update username displayname = do
    raise_if (str_eq username "root") (users_error root_user_is_protected)
    raise_if (is_displayname_too_long displayname) (users_error displayname_too_long)

  -- `_get_user_group_changes`
  unfoldable pub get_user_group_changes :
      Provider S
      → (username : String) → (directmemberof : Option (List String))
      → Act S (List String × List String)
  unfolding group_changes
  get_user_group_changes p username none = pure ([], [])
  get_user_group_changes p username (some wanted) = do
    user ← on_provider (p.get_user_by_username username)
    pure (group_changes (keys_or_empty user.directmemberof) wanted)

  abbrev pub add_all : Provider S → String → List String → Act S (Unit {0})
  add_all p username [] = pure tt
  add_all p username (g ∷ gs) =
      on_provider (p.add_users_to_group (username ∷ []) g) >> add_all p username gs

  abbrev pub remove_all : Provider S → String → List String → Act S (Unit {0})
  remove_all p username [] = pure tt
  remove_all p username (g ∷ gs) =
      on_provider (p.remove_users_from_group (username ∷ []) g) >> remove_all p username gs

  -- `_apply_user_group_changes`
  unfoldable pub apply_user_group_changes :
      Provider S → String → List String × List String → Act S (Unit {0})
  apply_user_group_changes p username (to_add, to_remove) =
      add_all p username to_add >> remove_all p username to_remove

  -- `if password: update_legacy_email_password_hash(...)`
  unfoldable pub update_password : AccountEnv → String → Option String → Act S (Unit {0})
  unfolding update_legacy_email_password_hash
  update_password env username password = elim (non_empty password) [
    | none ↦ pure tt
    | some text_ ↦ on_passwords (update_legacy_email_password_hash env.email username text_ true)
  ]

  -- `if displayname: ...`
  unfoldable pub update_displayname : Provider S → String → Option String → Act S (Unit {0})
  update_displayname p username displayname = elim (non_empty displayname) [
    | none ↦ pure tt
    | some n ↦ on_provider (p.update_user username (some n))
  ]

  unfoldable pub update_user :
      Provider S
      → AccountEnv
      → (username : String) → (directmemberof : Option (List String))
      → (displayname password : Option String) → Act S (Unit {0})
  unfolding validate_user_update get_user_group_changes apply_user_group_changes update_password
      update_displayname
  update_user p env username directmemberof displayname password = do
    validate_user_update username displayname
    changes ← get_user_group_changes p username directmemberof
    update_password env username password
    update_displayname p username displayname
    apply_user_group_changes p username changes

  unfoldable pub get_user_by_username : Provider S → (username : String) → Act S UserDataUser
  unfolding with_ssh_keys get_ssh_keys
  get_user_by_username p username = if str_eq username "root" then from_userdata root_user else (do
    user ← on_provider (p.get_user_by_username username)
    from_userdata (with_ssh_keys user))

  unfoldable pub generate_password_reset_link : Provider S → (username : String) → Act S String
  generate_password_reset_link p username = do
    raise_if (str_eq username "root") (users_error root_user_is_protected)
    on_provider (p.generate_password_reset_link username)

  unfoldable pub get_groups : Provider S → Act S (List Group)
  get_groups p = on_provider p.get_groups
