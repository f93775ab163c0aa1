-- ===== src/Actions/Creation.antt =====
-- What `create_user` and `delete_user` of selfprivacy_api/actions/users.py leave behind, also where
-- they raise.
use selfprivacy_api.Base.{
  ℕ, ◌≤◌, ◌<◌, String, ◌≡◌, refl, sym, ap, ◌∙◌, inl, inr, ◌⊎◌, Bool, true, false, Option, none,
  some, List, arith, Option-cases, str_mem, Result, err, raise_if, ◌>>◌, bind-ok, bind-err,
}
use selfprivacy_api.Users.Data.{displayname_too_long}
use selfprivacy_api.Users.Repo as Json_repo
use selfprivacy_api.Email.Store.{add_email_password}
use selfprivacy_api.Kanidm.Token.{non_empty}
use selfprivacy_api.Actions.Names.{
  is_username_or_prefix_reserved, first_prefix, reserved_by, reserved_prefixes, reserved_usernames,
  str_length, matches_name,
}
use selfprivacy_api.Actions.Provider.{Provider}
use selfprivacy_api.Actions.Accounts.{
  ActionError, users_error, Accounts, AccountEnv, groups_or_default, reserved_error, first_error,
  check_username, is_displayname_too_long, except_already_exists, Act, on_provider, on_json,
  raise_some,
}
use selfprivacy_api.Actions.Users.{add_password, create_user}

matches_name-length : (s : String) → matches_name s ≡ true → 2 ≤ str_length s
unfolding matches_name str_length
matches_name-length String.[] h = cc
matches_name-length (String.◌∷◌ c String.[]) h = ground arith
matches_name-length (String.◌∷◌ c (String.◌∷◌ d s)) h = omega arith

reserved_by-none :
    (o : Option String) (b : Bool) → reserved_error (reserved_by o b) ≡ none → b ≡ false
reserved_by-none (some q) b h = cc
reserved_by-none none true h = cc
reserved_by-none none false h = refl

first_error-none :
    (o : Option ActionError) (b : Bool) (n : ℕ)
    → first_error o b n ≡ none
    → (o ≡ none) × (b ≡ true) × (n < 32)
first_error-none (some e) b n h = cc
first_error-none none false n h = cc
first_error-none none true n h = (refl, refl, ground arith)

-- A name that passes the checks has 2 to 31 characters and is no reserved name.
check_username_lem :
    (username : String)
    → check_username username ≡ none
    → (2 ≤ str_length username)
      × (str_length username < 32)
      × (str_mem username reserved_usernames ≡ false)
unfolding check_username is_username_or_prefix_reserved
check_username_lem username h =
    let (free, matched, short) =
      first_error-none (reserved_error (is_username_or_prefix_reserved username))
        (matches_name username) (str_length username) h in
    (
      matches_name-length username matched,
      short,
      reserved_by-none (first_prefix username reserved_prefixes)
          (str_mem username reserved_usernames) free,
    )

module _ {S : Type 0} (p : Provider S) (env : AccountEnv) (username : String) where
  -- The rest of `create_user` after the check of the name.
  abbrev create_checked :
      (password : Option String)
      → (directmemberof : Option (List String)) → (displayname : Option String) → Act S (Unit {0})
  create_checked password directmemberof displayname = do
    add_password env username password
    raise_if (is_displayname_too_long displayname) (users_error displayname_too_long)
    on_json except_already_exists (Json_repo.create_user env.users username (some env.users.uuid))
    on_provider (p.create_user username (some (groups_or_default directmemberof)) displayname)

  module _ (password : Option String) (directmemberof : Option (List String))
      (displayname : Option String) where
    -- Either the name does not pass the checks, and the call raises the error of the check and
    -- changes nothing, or the name has 2 to 31 characters and is not a reserved one.
    pub create_user-name :
        (w w' : Accounts S) (r : Result ActionError (Unit {0}))
        → create_user p env username password directmemberof displayname w ≡ (r, w')
        → ((e : ActionError) × (check_username username ≡ some e) × (r ≡ err e) × (w' ≡ w))
          ⊎ ((2 ≤ str_length username)
              × (str_length username < 32)
              × (str_mem username reserved_usernames ≡ false))
    unfolding create_user
    create_user-name w w' r run = elim (Option-cases (check_username username)) [
      | inl fine ↦ inr (check_username_lem username fine)
      | inr (e, found) ↦
          let refused =
            bind-err (raise_some (check_username username))
              (λ _. create_checked password directmemberof displayname) {s = w}
              (ap (λ o. raise_some o w) found) in
          inl (
            e,
            found,
            ap (λ (q : Result ActionError (Unit {0}) × Accounts S). q.0) (sym run ∙ refused),
            ap (λ (q : Result ActionError (Unit {0}) × Accounts S). q.1) (sym run ∙ refused),
          )
    ]

    -- With a name that passes the checks, a display name that is too long and a password, the call
    -- raises `DisplaynameTooLong` and leaves the new email password behind.
    pub create_user-displayname_too_long :
        (w : Accounts S) (text_ : String)
        → check_username username ≡ none
        → non_empty password ≡ some text_
        → is_displayname_too_long displayname ≡ true
        → create_user p env username password directmemberof displayname w ≡ (
          err (users_error displayname_too_long),
          record w {
            passwords =
                add_email_password env.email username text_ none true false none w.passwords;
          },
        )
    unfolding create_user add_password
    create_user-displayname_too_long w text_ fine given long =
        let w1 : Accounts S = record w {
          passwords = add_email_password env.email username text_ none true false none w.passwords;
        } in
        let rest : Act S (Unit {0}) =
          on_json except_already_exists
            (Json_repo.create_user env.users username (some env.users.uuid))
          >> on_provider
              (p.create_user username (some (groups_or_default directmemberof)) displayname) in
        bind-ok (raise_some (check_username username))
          (λ _. create_checked password directmemberof displayname) {s = w}
          (ap (λ o. raise_some o w) fine)
        ∙ bind-ok (add_password env username password)
            (λ _.
              raise_if (is_displayname_too_long displayname) (users_error displayname_too_long)
              >> rest)
            {s = w} {s' = w1} (rw (given, add_password) refl)
        ∙ bind-err
            (raise_if (is_displayname_too_long displayname) (users_error displayname_too_long))
            (λ _. rest) {s = w1} (ap (λ b. raise_if b (users_error displayname_too_long) w1) long)
