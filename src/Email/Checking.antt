-- ===== src/Email/Checking.antt =====
-- Which passwords the check lets through.
use selfprivacy_api.Base.{
  String, ◌≡◌, refl, ap, ◌∙◌, inl, inr, Bool, true, false, ◌&&◌, ◌||◌, not, none, some, List, [],
  ◌∷◌, arith, if◌then◌else◌, Bool-cases, Option-cases, is_some, Dict, NodupKeys, insert, ok, err,
}
use selfprivacy_api.Email.Keys.{MatchesOwn, matched_own}
use selfprivacy_api.Email.Store.{
  PasswordHash, EmailPasswordData, EmailStore, EmailError, validation_error, hashes_of, metadata_of,
  collect_metadata, get_all_email_passwords_metadata, EmailEnv, is_expired, accepts, first_accepted,
  validate_email_password,
}

-- A hash that lets a password through at the time of `env`.
abbrev pub opens : EmailEnv → String → PasswordHash → Bool
opens env password h = elim h.password [
  | none ↦ false
  | some text_ ↦ not (is_expired h.expires_at env.now) && env.verify_password password text_
]

abbrev pub any_opens : EmailEnv → String → Dict PasswordHash → Bool
any_opens env password [] = false
any_opens env password ((uuid, h) ∷ d) = opens env password h || any_opens env password d

-- Every hash has a display name.
abbrev pub all_named : Dict PasswordHash → Bool
all_named [] = true
all_named ((uuid, h) ∷ d) = is_some h.display_name && all_named d

first_accepted_cons :
    (env : EmailEnv) (password : String) (x : EmailPasswordData) (xs : List EmailPasswordData)
    (rest : Bool)
    → is_some (first_accepted env password xs) ≡ rest
    → is_some (first_accepted env password (x ∷ xs)) ≡ (accepts env password x || rest)
unfolding first_accepted
first_accepted_cons env password x xs rest same = elim (Bool-cases (accepts env password x)) [
  | inl has ↦ simp has
  | inr lacks ↦ simp lacks same
]

collect_metadata_named :
    (env : EmailEnv) (password : String) (d : Dict PasswordHash)
    → all_named d ≡ true
    → (items : List EmailPasswordData) × (collect_metadata true d ≡ ok items)
      × (is_some (first_accepted env password items) ≡ any_opens env password d)
unfolding collect_metadata metadata_of first_accepted
collect_metadata_named env password [] named = ([], refl, refl)
collect_metadata_named env password ((uuid, h) ∷ d) named = elim (Option-cases h.display_name) [
  | inl missing ↦ absurd (ground arith)
  | inr (name, has_name) ↦
      let (items, collected, same) = collect_metadata_named env password d (ground arith) in
      let item : EmailPasswordData = record {
        uuid = uuid;
        password = h.password;
        display_name = name;
        created_at = h.created_at;
        expires_at = h.expires_at;
        last_used = h.last_used;
      } in
      let made : metadata_of true uuid h ≡ ok item = rw (has_name, metadata_of) refl in
      (item ∷ items, simp (made, collected), first_accepted_cons env password item items _ same)
]

pub collect_metadata_unnamed :
    (with_hashes : Bool) (d : Dict PasswordHash)
    → all_named d ≡ false
    → collect_metadata with_hashes d ≡ err validation_error
unfolding collect_metadata metadata_of
collect_metadata_unnamed w [] named = cc
collect_metadata_unnamed w ((uuid, h) ∷ d) named = elim (Option-cases h.display_name) [
  | inl missing ↦ ground arith
  | inr (name, has_name) ↦ ground (arith, collect_metadata_unnamed w d)
]

validate-ok :
    (env : EmailEnv) (username password : String) (s : EmailStore) (items : List EmailPasswordData)
    → get_all_email_passwords_metadata env.matches username true s ≡ ok items
    → (validate_email_password env username password s).0
      ≡ ok (is_some (first_accepted env password items))
unfolding validate_email_password
validate-ok env username password s items listed =
    elim (Option-cases (first_accepted env password items)) [
      | inl none_ ↦ rw (listed, validate_email_password) (simp none_)
      | inr (x, some_) ↦ rw (listed, validate_email_password) (simp some_)
    ]

validate-err :
    (env : EmailEnv) (username password : String) (s : EmailStore) (e : EmailError)
    → get_all_email_passwords_metadata env.matches username true s ≡ err e
    → validate_email_password env username password s ≡ (err e, s)
unfolding validate_email_password
validate-err env username password s e listed = rw (listed, validate_email_password) refl

-- The check lets a password through exactly when some hash of the user is for it and has not
-- expired, where every hash of the user has a display name; a hash without one makes it raise. In
-- the store each user stands once, and Redis's pattern for the name of the user matches the keys of
-- the user and of no other one.
pub validate_email_password_lem :
    (env : EmailEnv) (username password : String) (s : EmailStore)
    → NodupKeys s
    → MatchesOwn env.matches username s
    → (validate_email_password env username password s).0 ≡ (
        if all_named (hashes_of username s)
        then ok (any_opens env password (hashes_of username s))
        else err validation_error)
unfolding get_all_email_passwords_metadata
validate_email_password_lem env username password s once own =
    let d = hashes_of username s in
    let found = matched_own env.matches username s once own in
    elim (Bool-cases (all_named d)) [
      | inl named ↦
          let (items, listed, same) = collect_metadata_named env password d named in
          rw named (
            validate-ok env username password s items (ap (collect_metadata true) found ∙ listed)
            ∙ ap ok same)
      | inr unnamed ↦ rw unnamed (
          ap (λ r. r.0)
            (validate-err env username password s validation_error
              (ap (collect_metadata true) found ∙ collect_metadata_unnamed true d unnamed)))
    ]

pub any_opens-insert :
    (env : EmailEnv) (password uuid : String) (h : PasswordHash) (d : Dict PasswordHash)
    → opens env password h ≡ true
    → any_opens env password (insert uuid h d) ≡ true
unfolding insert
any_opens-insert env password uuid h [] has = simp has
any_opens-insert env password uuid h ((j, g) ∷ d) has =
    ground (arith, any_opens-insert env password uuid h d has)

pub all_named-insert :
    (uuid : String) (h : PasswordHash) (d : Dict PasswordHash)
    → is_some h.display_name ≡ true
    → all_named d ≡ true
    → all_named (insert uuid h d) ≡ true
unfolding insert
all_named-insert uuid h [] has named = simp has
all_named-insert uuid h ((j, g) ∷ d) has named = ground (arith, all_named-insert uuid h d has)

pub unnamed-insert :
    (uuid : String) (h : PasswordHash) (d : Dict PasswordHash)
    → is_some h.display_name ≡ false
    → all_named (insert uuid h d) ≡ false
unfolding insert
unnamed-insert uuid h [] lacks = simp lacks
unnamed-insert uuid h ((j, g) ∷ d) lacks = ground (arith, unnamed-insert uuid h d lacks)
