-- ===== src/Email/Store.antt =====
-- `EmailPasswordManager` and the actions on email passwords. The Redis keys
-- `priv/user/<username>/passwords/<uuid>` are kept as a dict by user of dicts by uuid. A key with a
-- deadline that has passed is gone at the latest when `EXPIREAT` sets it.
use selfprivacy_api.Base.{
  ℕ, String, Bool, true, false, ◌&&◌, not, Option, none, some, List, [], ◌∷◌, ◌++◌, str_eq, ltb,
  leb, if◌then◌else◌, Dict, lookup, insert, erase, Result, ok, err, Action,
}
use selfprivacy_api.Base.Time.{Datetime, ensure_timezone, instant}

-- The fields of one Redis hash, and its deadline.
pub record PasswordHash : Type 0 where
  pub password : Option String
  pub display_name : Option String
  pub created_at : Option ℕ
  pub expires_at : Option ℕ
  pub last_used : Option ℕ
  pub deadline : Option ℕ

pub record EmailPasswordData : Type 0 where
  pub uuid : String
  pub password : Option String
  pub display_name : String
  pub created_at : Option ℕ
  pub expires_at : Option ℕ
  pub last_used : Option ℕ

abbrev pub EmailStore : Type 0
EmailStore = Dict (Dict PasswordHash)

-- pydantic's error on a missing `display_name`
pub data EmailError : Type 0 where
  validation_error : EmailError

abbrev pub hashes_of : String → EmailStore → Dict PasswordHash
hashes_of username s = elim (lookup username s) [ none ↦ [] | some d ↦ d ]

-- The item of the listing that one hash makes.
unfoldable pub metadata_of : Bool → String → PasswordHash → Result EmailError EmailPasswordData
metadata_of with_passwords_hashes uuid h = elim h.display_name [
  | none ↦ err validation_error
  | some name ↦ ok (record {
    uuid = uuid;
    password = if with_passwords_hashes then h.password else none;
    display_name = name;
    created_at = h.created_at;
    expires_at = h.expires_at;
    last_used = h.last_used;
  })
]

abbrev pub cons_result :
    Result EmailError EmailPasswordData
    → Result EmailError (List EmailPasswordData)
    → Result EmailError (List EmailPasswordData)
cons_result (err e) rest = err e
cons_result (ok x) (err e) = err e
cons_result (ok x) (ok xs) = ok (x ∷ xs)

-- The loop over the keys.
unfoldable pub collect_metadata :
    Bool → Dict PasswordHash → Result EmailError (List EmailPasswordData)
unfolding metadata_of
collect_metadata with_hashes [] = ok []
collect_metadata with_hashes ((uuid, h) ∷ d) =
    cons_result (metadata_of with_hashes uuid h) (collect_metadata with_hashes d)

-- Whether Redis matches the keys of `owner` with the pattern `priv/user/<username>/passwords/*`. A
-- name in a pattern may have special characters, such as a star.
abbrev pub Matches : Type 0
Matches = (username owner : String) → Bool

-- The hashes at the keys that SCAN finds, each once
abbrev pub matched : Matches → String → EmailStore → Dict PasswordHash
matched matches username [] = []
matched matches username ((owner, d) ∷ s) =
    if matches username owner then d ++ matched matches username s else matched matches username s

unfoldable pub get_all_email_passwords_metadata :
    Matches → String → Bool → EmailStore → Result EmailError (List EmailPasswordData)
unfolding collect_metadata
get_all_email_passwords_metadata matches username with_hashes s =
    collect_metadata with_hashes (matched matches username s)

abbrev pub no_hash : PasswordHash
no_hash = record {
  password = none;
  display_name = none;
  created_at = none;
  expires_at = none;
  last_used = none;
  deadline = none;
}

abbrev pub hash_or_none : Option PasswordHash → PasswordHash
hash_or_none none = no_hash
hash_or_none (some h) = h

abbrev pub or_old : Option ℕ → Option ℕ → Option ℕ
or_old none old = old
or_old (some t) old = some t

-- HSET on a key: the fields of the mapping are set, the others and the deadline stay.
unfoldable pub set_fields : String → EmailPasswordData → PasswordHash → PasswordHash
set_fields password_hash m old = record old {
  password = some password_hash;
  display_name = some m.display_name;
  created_at = or_old m.created_at old.created_at;
  expires_at = or_old m.expires_at old.expires_at;
}

-- EXPIREAT: a time that is not in the future deletes the key.
unfoldable pub expire_at :
    ℕ → Option ℕ → String → PasswordHash → Dict PasswordHash → Dict PasswordHash
expire_at now none uuid h d = insert uuid h d
expire_at now (some t) uuid h d =
    if leb t now then erase uuid d else insert uuid (record h { deadline = some t }) d

unfoldable pub add_email_password_hash :
    ℕ → String → String → EmailPasswordData → EmailStore → EmailStore
unfolding expire_at set_fields
add_email_password_hash now username password_hash m s =
    let d = hashes_of username s in
    let h = set_fields password_hash m (hash_or_none (lookup m.uuid d)) in
    insert username (expire_at now m.expires_at m.uuid h d) s

-- HSET, which makes the key where it is missing
unfoldable pub update_email_password_hash_last_used : ℕ → String → String → EmailStore → EmailStore
update_email_password_hash_last_used now username uuid s =
    let d = hashes_of username s in
    insert username (insert uuid (record (hash_or_none (lookup uuid d)) { last_used = some now }) d)
      s

unfoldable pub delete_email_password_hash : String → String → EmailStore → EmailStore
delete_email_password_hash username uuid s = insert username (erase uuid (hashes_of username s)) s

-- DEL of the keys that KEYS finds
unfoldable pub delete_all_email_passwords_hashes : Matches → String → EmailStore → EmailStore
delete_all_email_passwords_hashes matches username [] = []
delete_all_email_passwords_hashes matches username ((owner, d) ∷ s) =
    let rest = delete_all_email_passwords_hashes matches username s in
    if matches username owner then rest else (owner, d) ∷ rest

-- The clock, `str(uuid4())`, the functions of passlib and the patterns of Redis.
pub record EmailEnv : Type 0 where
  pub now : ℕ
  pub uuid4 : String
  pub generate_password_hash : String → String
  pub verify_password : String → String → Bool
  pub matches : Matches

abbrev pub zero_uuid : String
zero_uuid = "00000000-0000-0000-0000-000000000000"

-- `display_name if display_name else "Legacy password"`
abbrev pub name_or_legacy : Option String → String
name_or_legacy none = "Legacy password"
name_or_legacy (some n) = if str_eq n "" then "Legacy password" else n

abbrev pub aware_instant : Option Datetime → Option ℕ
aware_instant none = none
aware_instant (some dt) = some (instant (ensure_timezone dt))

-- The metadata that `actions.email_passwords.add_email_password_hash` makes.
unfoldable pub new_metadata :
    EmailEnv
    → Option String
    → (with_created_at with_zero_uuid : Bool) → Option Datetime
    → EmailPasswordData
new_metadata env display_name with_created_at with_zero_uuid expires_at = record {
  uuid = if with_zero_uuid then zero_uuid else env.uuid4;
  password = none;
  display_name = name_or_legacy display_name;
  created_at = if with_created_at then some env.now else none;
  expires_at = aware_instant expires_at;
  last_used = none;
}

unfoldable pub add_email_password :
    EmailEnv
    → (username password : String) → Option String
    → (with_created_at with_zero_uuid : Bool) → Option Datetime
    → EmailStore
    → EmailStore
unfolding add_email_password_hash new_metadata
add_email_password env username password display_name with_created_at with_zero_uuid expires_at =
    add_email_password_hash env.now username (env.generate_password_hash password)
      (new_metadata env display_name with_created_at with_zero_uuid expires_at)

-- `with_created_at` is not passed on.
unfoldable pub update_legacy_email_password_hash :
    EmailEnv → (username password : String) → (with_created_at : Bool) → EmailStore → EmailStore
unfolding add_email_password delete_email_password_hash
update_legacy_email_password_hash env username password with_created_at s =
    add_email_password env username password none true false none
      (delete_email_password_hash username zero_uuid s)

-- `is_expired`
abbrev pub is_expired : Option ℕ → ℕ → Bool
is_expired none now = false
is_expired (some t) now = ltb t now

-- Whether the loop of `validate_email_password` stops at an item.
unfoldable pub accepts : EmailEnv → String → EmailPasswordData → Bool
accepts env password x = elim x.password [
  | none ↦ false
  | some h ↦ not (is_expired x.expires_at env.now) && env.verify_password password h
]

unfoldable pub first_accepted :
    EmailEnv → String → List EmailPasswordData → Option EmailPasswordData
unfolding accepts
first_accepted env password [] = none
first_accepted env password (x ∷ xs) =
    if accepts env password x then some x else first_accepted env password xs

unfoldable pub validate_email_password :
    EmailEnv → (username password : String) → Action EmailStore EmailError Bool
unfolding get_all_email_passwords_metadata first_accepted update_email_password_hash_last_used
validate_email_password env username password s =
    elim (get_all_email_passwords_metadata env.matches username true s) [
      | err e ↦ (err e, s)
      | ok items ↦ elim (first_accepted env password items) [
        | none ↦ (ok false, s)
        | some x ↦ (ok true, update_email_password_hash_last_used env.now username x.uuid s)
      ]
    ]
