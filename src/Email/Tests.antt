-- ===== src/Email/Tests.antt =====
-- The theorems on email passwords at concrete inputs.
use selfprivacy_api.Base.{
  lookup, ◌≡◌, ◌||◌, refl, true, false, none, some, [], ◌∷◌, str_eq, if◌then◌else◌, ok, err,
}
use selfprivacy_api.Base.Time.{aware}
use selfprivacy_api.Email.Store.{
  new_metadata, PasswordHash, EmailStore, validation_error, hashes_of, EmailEnv, add_email_password,
  validate_email_password,
}
use selfprivacy_api.Email.Checking.{any_opens, all_named, validate_email_password_lem}
use selfprivacy_api.Email.Passwords.{added_password_opens}

abbrev env : EmailEnv
env = record {
  now = 100;
  uuid4 = "u2";
  generate_password_hash = λ s. s;
  verify_password = str_eq;
  matches = λ username owner. str_eq username "*" || str_eq owner username;
}

abbrev old_hash : PasswordHash
old_hash = record {
  password = some "old";
  display_name = some "Phone";
  created_at = none;
  expires_at = some 50;
  last_used = none;
  deadline = some 50;
}

abbrev store : EmailStore
store = ("alice", ("u1", old_hash) ∷ []) ∷ []

validate_email_password_lem_example : (validate_email_password env "alice" "old" store).0 ≡ (
    if all_named (hashes_of "alice" store)
    then ok (any_opens env "old" (hashes_of "alice" store))
    else err validation_error)
unfolding lookup
validate_email_password_lem_example =
    validate_email_password_lem env "alice" "old" store (refl, tt) (refl, tt)

added_password_opens_example :
    (validate_email_password env "alice" "new"
      (add_email_password env "alice" "new" none true false (some (aware 200)) store)).0
    ≡ ok true
unfolding lookup new_metadata
added_password_opens_example =
    added_password_opens env env "alice" "new" none true false (some (aware 200)) store refl refl
      refl refl refl (refl, tt) refl (refl, tt)
