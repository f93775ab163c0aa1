-- ===== src/Email/Passwords.antt =====
-- What adding, deleting and using email passwords does to the check.
use selfprivacy_api.Base.{
  ℕ, String, ◌≡◌, refl, ap, ◌∙◌, Bool, true, false, Option, none, some, [], arith, ltb, is_some,
  Dict, NodupKeys, insert-NodupKeys, lookup, insert, erase, lookup-insert_self, lookup-erase_self,
  ok, err,
}
use selfprivacy_api.Base.Time.{Datetime}
use selfprivacy_api.Email.Keys.{MatchesOwn, insert-MatchesOwn, matched-delete, matched_own}
use selfprivacy_api.Email.Store.{
  PasswordHash, EmailPasswordData, EmailStore, validation_error, hashes_of, collect_metadata,
  get_all_email_passwords_metadata, hash_or_none, set_fields, expire_at,
  update_email_password_hash_last_used, delete_email_password_hash,
  delete_all_email_passwords_hashes, EmailEnv, aware_instant, new_metadata, add_email_password,
  is_expired, validate_email_password,
}
use selfprivacy_api.Email.Checking.{
  opens, any_opens, all_named, collect_metadata_unnamed, validate_email_password_lem,
  any_opens-insert, all_named-insert, unnamed-insert,
}

hashes_of-insert :
    (username : String) (d : Dict PasswordHash) (s : EmailStore)
    → hashes_of username (insert username d s) ≡ d
hashes_of-insert username d s =
    ap (λ (o : Option (Dict PasswordHash)). elim o [ none ↦ [] | some x ↦ x ])
      (lookup-insert_self username d s)

-- A deadline that lies in the future.
abbrev pub is_live : Option ℕ → ℕ → Bool
is_live none now = true
is_live (some t) now = ltb now t

expire_at_live :
    (now : ℕ) (deadline : Option ℕ) (uuid : String) (h : PasswordHash) (d : Dict PasswordHash)
    → is_live deadline now ≡ true
    → (g : PasswordHash) × (expire_at now deadline uuid h d ≡ insert uuid g d)
      × (g.password ≡ h.password)
      × (g.display_name ≡ h.display_name)
      × (g.expires_at ≡ h.expires_at)
unfolding expire_at
expire_at_live now none uuid h d live = (h, refl, refl, refl, refl)
expire_at_live now (some t) uuid h d live =
    (record h { deadline = some t }, ground arith, refl, refl, refl)

set_fields_new :
    (password_hash : String) (m : EmailPasswordData)
    → ((set_fields password_hash m (hash_or_none none)).password ≡ some password_hash)
      × ((set_fields password_hash m (hash_or_none none)).display_name ≡ some m.display_name)
      × ((set_fields password_hash m (hash_or_none none)).expires_at ≡ m.expires_at)
unfolding set_fields
set_fields_new password_hash m = (refl, refl, ground arith)

opens_lem :
    (env : EmailEnv) (password text_ : String) (expires_at : Option ℕ) (g : PasswordHash)
    → g.password ≡ some text_
    → g.expires_at ≡ expires_at
    → is_expired expires_at env.now ≡ false
    → env.verify_password password text_ ≡ true
    → opens env password g ≡ true
opens_lem env password text_ expires_at g stored until early verified = ground arith

validate-ok_true :
    (env : EmailEnv) (username password : String) (s : EmailStore) (d : Dict PasswordHash)
    → hashes_of username s ≡ d
    → all_named d ≡ true
    → any_opens env password d ≡ true
    → NodupKeys s
    → MatchesOwn env.matches username s
    → (validate_email_password env username password s).0 ≡ ok true
validate-ok_true env username password s d same named open_ once own =
    validate_email_password_lem env username password s once own ∙ rw same (simp (named, open_))

-- A password that is added under a fresh uuid, with an expiry date in the future or none, is let
-- through as long as the date has not passed and the hash verifies, where every hash of the user
-- has a display name, each user stands once, and Redis's pattern for the name of the user matches the keys of the user and
-- of no other one.
pub added_password_opens :
    (env env' : EmailEnv) (username password : String) (display_name : Option String)
    (with_created_at with_zero_uuid : Bool) (expires_at : Option Datetime) (s : EmailStore)
    → all_named (hashes_of username s) ≡ true
    → lookup
        (new_metadata env display_name with_created_at with_zero_uuid expires_at).uuid
        (hashes_of username s)
      ≡ none
    → is_live (aware_instant expires_at) env.now ≡ true
    → is_expired (aware_instant expires_at) env'.now ≡ false
    → env'.verify_password password (env.generate_password_hash password) ≡ true
    → NodupKeys s
    → env'.matches username username ≡ true
    → MatchesOwn env'.matches username s
    → (validate_email_password env' username password (
        add_email_password env username password display_name with_created_at with_zero_uuid
          expires_at s)).0
      ≡ ok true
unfolding add_email_password new_metadata
added_password_opens env env' username password display_name created zero_ expires_at s named fresh
      live early verified once matching own =
    let d = hashes_of username s in
    let m = new_metadata env display_name created zero_ expires_at in
    let (text_, shown, until) = set_fields_new (env.generate_password_hash password) m in
    let (g, stored, same, named_same, until_same) =
      expire_at_live env.now m.expires_at m.uuid
        (set_fields (env.generate_password_hash password) m (hash_or_none none)) d live in
    let added = set_fields (env.generate_password_hash password) m in
    let whole =
      hashes_of-insert username
        (expire_at env.now m.expires_at m.uuid (added (hash_or_none (lookup m.uuid d))) d) s
      ∙ ap (λ o. expire_at env.now m.expires_at m.uuid (added (hash_or_none o)) d) fresh
      ∙ stored in
    let open_ =
      opens_lem env' password (env.generate_password_hash password) (aware_instant expires_at) g
        (same ∙ text_) (until_same ∙ until) early verified in
    validate-ok_true env' username password _ (insert m.uuid g d) whole
      (all_named-insert m.uuid g d (ap is_some (named_same ∙ shown)) named)
      (any_opens-insert env' password m.uuid g d open_) (insert-NodupKeys username _ s once)
      (insert-MatchesOwn env'.matches username _ s matching own)

validate-nothing :
    (env : EmailEnv) (username password : String) (s : EmailStore)
    → get_all_email_passwords_metadata env.matches username true s ≡ ok []
    → validate_email_password env username password s ≡ (ok false, s)
unfolding validate_email_password
validate-nothing env username password s listed = rw (listed, validate_email_password) refl

-- After all email passwords of a user are deleted, no password is let through, and the check
-- changes nothing.
pub deleted_passwords_locked :
    (env : EmailEnv) (username password : String) (s : EmailStore)
    → let after = delete_all_email_passwords_hashes env.matches username s in
      validate_email_password env username password after ≡ (ok false, after)
unfolding get_all_email_passwords_metadata
deleted_passwords_locked env username password s =
    validate-nothing env username password
      (delete_all_email_passwords_hashes env.matches username s)
      (ap (collect_metadata true) (matched-delete env.matches username s))

late_use_unnamed :
    (now : ℕ) (username uuid : String) (s : EmailStore)
    → all_named (
        hashes_of username (
          update_email_password_hash_last_used now username uuid
            (delete_email_password_hash username uuid s)))
      ≡ false
unfolding update_email_password_hash_last_used delete_email_password_hash
late_use_unnamed now username uuid s =
    let d = erase uuid (hashes_of username s) in
    let gone =
      ap (λ x. is_some (hash_or_none (lookup uuid x)).display_name) (hashes_of-insert username d s)
      ∙ ap (λ o. is_some (hash_or_none o).display_name)
          (lookup-erase_self uuid (hashes_of username s)) in
    ap all_named (hashes_of-insert username _ (insert username d s)) ∙ unnamed-insert uuid _ _ gone

-- When the use of a password is recorded after the password was deleted, as when both happen at
-- once, the listing of the user's passwords raises, and so does every check of a password, where the
-- pattern matches the keys of the user and of no other one.
pub late_use_breaks_listing :
    (env : EmailEnv) (now : ℕ) (username uuid password : String) (with_hashes : Bool)
    (s : EmailStore)
    → NodupKeys s
    → env.matches username username ≡ true
    → MatchesOwn env.matches username s
    → let after =
        update_email_password_hash_last_used now username uuid
          (delete_email_password_hash username uuid s) in
      (get_all_email_passwords_metadata env.matches username with_hashes after
        ≡ err validation_error)
      × ((validate_email_password env username password after).0 ≡ err validation_error)
unfolding get_all_email_passwords_metadata update_email_password_hash_last_used
    delete_email_password_hash
late_use_breaks_listing env now username uuid password with_hashes s once matching own =
    let after =
      update_email_password_hash_last_used now username uuid
        (delete_email_password_hash username uuid s) in
    let unnamed = late_use_unnamed now username uuid s in
    let once' : NodupKeys after =
      insert-NodupKeys username _ _ (insert-NodupKeys username _ s once) in
    let own' : MatchesOwn env.matches username after =
      insert-MatchesOwn env.matches username _ _ matching
        (insert-MatchesOwn env.matches username _ s matching own) in
    (
      ap (collect_metadata with_hashes) (matched_own env.matches username after once' own')
          ∙ collect_metadata_unnamed with_hashes (hashes_of username after) unnamed,
      validate_email_password_lem env username password after once' own' ∙ rw unnamed refl,
    )
