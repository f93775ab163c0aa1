-- ===== src/Actions/Deletion.antt =====
-- What `delete_user` of selfprivacy_api/actions/users.py leaves behind, whatever the provider
-- answers.
use selfprivacy_api.Base.{
  true, String, ◌≡◌, ◌≢◌, refl, sym, ap, ◌∙◌, inl, inr, false, none, str_eq, lookup, Result-cases,
  Result, ok, err, raise_if, ◌>>=◌, ◌>>◌, bind-ok, bind-err,
}
use selfprivacy_api.Users.Data.{UserDataUser, root_user_is_protected}
use selfprivacy_api.Users.Repo as Json_repo
use selfprivacy_api.Email.Store.{Matches, delete_all_email_passwords_hashes}
use selfprivacy_api.Email.Keys.{lookup-delete}
use selfprivacy_api.Kanidm.Server.{KanidmError}
use selfprivacy_api.Actions.Provider.{Provider}
use selfprivacy_api.Actions.Accounts.{
  ActionError, users_error, Accounts, Act, provided, on_provider, on_passwords,
}
use selfprivacy_api.Actions.Users.{delete_user, find_and_forget}

clash : {e : ActionError} → ok tt ≢ err e
clash h = cc

module _ {S : Type 0} where
  provided-keeps :
      {A : Type 0} (w : Accounts S) (q : Result KanidmError A × S)
      → ((provided w q).1.userdata ≡ w.userdata) × ((provided w q).1.passwords ≡ w.passwords)
  provided-keeps w (ok a, s) = (refl, refl)
  provided-keeps w (err e, s) = (refl, refl)

  -- What a deletion does after the user was looked up.
  abbrev delete_found : Matches → Provider S → String → Act S (Unit {0})
  delete_found matches p username =
      on_passwords (delete_all_email_passwords_hashes matches username)
      >> on_provider (p.delete_user username)

  delete_found-forgets :
      (matches : Matches) (p : Provider S) (username : String) (w : Accounts S)
      → matches username username ≡ true
      → ((delete_found matches p username w).1.userdata ≡ w.userdata)
        × (lookup username (delete_found matches p username w).1.passwords ≡ none)
  delete_found-forgets matches p username w own =
      let w1 : Accounts S = record w {
        passwords = delete_all_email_passwords_hashes matches username w.passwords;
      } in
      let (same, erased) = provided-keeps w1 (p.delete_user username w1.remote) in
      (same, ap (lookup username) erased ∙ lookup-delete matches username w.passwords own)

  -- After a deletion of another name than "root", whatever the provider answers, userdata.json is
  -- as the JSON repository's `delete_user` leaves it; and if the call returns, the user has no email
  -- passwords, where Redis's pattern for the name of the user matches the keys of the user.
  pub delete_user-forgets :
      (matches : Matches) (p : Provider S) (username : String) (w w' : Accounts S)
      (r : Result ActionError (Unit {0}))
      → str_eq username "root" ≡ false
      → matches username username ≡ true
      → delete_user matches p username w ≡ (r, w')
      → (w'.userdata ≡ (Json_repo.delete_user username w.userdata).1)
        × (r ≡ ok tt → lookup username w'.passwords ≡ none)
  unfolding delete_user
  delete_user-forgets matches p username w w' r other own run =
      let found = find_and_forget p username w in
      let rest : UserDataUser → Act S (Unit {0}) = λ _. delete_found matches p username in
      let start =
        bind-ok (raise_if (str_eq username "root") (users_error root_user_is_protected))
          (λ _. find_and_forget p username >>= rest) {s = w}
          (ap (λ b. raise_if b (users_error root_user_is_protected) w) other) in
      let state : Result ActionError (Unit {0}) × Accounts S → Accounts S = λ q. q.1 in
      elim (Result-cases found.0) [
        | inl (u, returned) ↦
            let whole =
              sym run
              ∙ start
              ∙ bind-ok (find_and_forget p username) rest {s = w} {s' = found.1}
                  (ap (λ (o : Result ActionError UserDataUser). (o, found.1)) returned) in
            let (same, gone) = delete_found-forgets matches p username found.1 own in
            (
              ap (λ q. (state q).userdata) whole ∙ same,
              λ _. ap (λ q. lookup username (state q).passwords) whole ∙ gone,
            )
        | inr (x, raised) ↦
            let whole =
              sym run
              ∙ start
              ∙ bind-err (find_and_forget p username) rest {s = w} {s' = found.1}
                  (ap (λ (o : Result ActionError UserDataUser). (o, found.1)) raised) in
            (
              ap (λ q. (state q).userdata) whole,
              λ e. absurd (
                  clash
                    (sym e ∙ ap (λ (q : Result ActionError (Unit {0}) × Accounts S). q.0) whole)),
            )
      ]
