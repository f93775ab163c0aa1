-- ===== src/Email/Keys.antt =====
-- Which keys the patterns of `EmailPasswordManager` find
-- (selfprivacy_api/repositories/email_password/email_password_redis_repository.py).
use selfprivacy_api.Base.{
  String, ◌≡◌, ◌≢◌, refl, sym, ap, ◌∙◌, inl, inr, Bool, true, false, Option, none, some, [], ◌∷◌,
  ◌++◌, arith, str_eq, eq_iff, eq_refl, if◌then◌else◌, Bool-cases, Dict, lookup, insert, NodupKeys,
  AllEntries, insert-AllEntries,
}
use selfprivacy_api.Email.Store.{
  PasswordHash, EmailStore, Matches, hashes_of, matched, delete_all_email_passwords_hashes,
}

-- Of the users with passwords, the pattern matches the keys of this user alone: what Redis does for
-- a name without special characters.
abbrev pub MatchesOwn : Matches → String → EmailStore → Type 0
MatchesOwn matches username s =
    AllEntries (λ owner (d : Dict PasswordHash). matches username owner ≡ str_eq owner username) s

abbrev hash_dict : Option (Dict PasswordHash) → Dict PasswordHash
hash_dict o = elim o [ none ↦ [] | some d ↦ d ]

append_nil : (d : Dict PasswordHash) → d ++ [] ≡ d
append_nil [] = refl
append_nil (x ∷ d) = ap (λ e. x ∷ e) (append_nil d)

matched-none :
    (matches : Matches) (username : String) (s : EmailStore)
    → MatchesOwn matches username s
    → lookup username s ≡ none
    → matched matches username s ≡ []
unfolding lookup
matched-none matches username [] own gone = refl
matched-none matches username ((owner, d) ∷ s) own gone =
    elim (Bool-cases (str_eq owner username)) [
      | inl same ↦ absurd (ground arith)
      | inr other ↦ rw (own.0 ∙ other) (matched-none matches username s own.1 (rw other at gone))
    ]

hashes_of_first :
    (username owner : String) (d : Dict PasswordHash) (s : EmailStore)
    → str_eq owner username ≡ true
    → hashes_of username ((owner, d) ∷ s) ≡ d
unfolding lookup
hashes_of_first username owner d s same =
    ap (λ b. hash_dict (if b then some d else lookup username s)) same

hashes_of_later :
    (username owner : String) (d : Dict PasswordHash) (s : EmailStore)
    → str_eq owner username ≡ false
    → hashes_of username ((owner, d) ∷ s) ≡ hashes_of username s
unfolding lookup
hashes_of_later username owner d s other =
    ap (λ b. hash_dict (if b then some d else lookup username s)) other

-- The keys found are those of the user.
pub matched_own :
    (matches : Matches) (username : String) (s : EmailStore)
    → NodupKeys s
    → MatchesOwn matches username s
    → matched matches username s ≡ hashes_of username s
unfolding lookup
matched_own matches username [] once own = refl
matched_own matches username ((owner, d) ∷ s) once own = elim (Bool-cases (str_eq owner username)) [
  | inl same ↦
      let gone = ap (λ n. lookup n s) (sym ((eq_iff owner username).0 same)) ∙ once.0 in
      rw (own.0 ∙ same) (
        ap (λ e. d ++ e) (matched-none matches username s own.1 gone)
        ∙ append_nil d
        ∙ sym (hashes_of_first username owner d s same))
  | inr other ↦
      rw (own.0 ∙ other) (
        matched_own matches username s once.1 own.1
        ∙ sym (hashes_of_later username owner d s other))
]

-- After a deletion by the pattern, the pattern finds nothing.
pub matched-delete :
    (matches : Matches) (username : String) (s : EmailStore)
    → matched matches username (delete_all_email_passwords_hashes matches username s) ≡ []
unfolding delete_all_email_passwords_hashes
matched-delete matches username [] = refl
matched-delete matches username ((owner, d) ∷ s) = elim (Bool-cases (matches username owner)) [
  | inl found ↦ rw found (matched-delete matches username s)
  | inr missed ↦ rw (missed, missed) (matched-delete matches username s)
]

-- A pattern that finds the keys of the user leaves none of them.
pub lookup-delete :
    (matches : Matches) (username : String) (s : EmailStore)
    → matches username username ≡ true
    → lookup username (delete_all_email_passwords_hashes matches username s) ≡ none
unfolding delete_all_email_passwords_hashes lookup
lookup-delete matches username [] own = refl
lookup-delete matches username ((owner, d) ∷ s) own = elim (Bool-cases (matches username owner)) [
  | inl found ↦ rw found (lookup-delete matches username s own)
  | inr missed ↦ elim (Bool-cases (str_eq owner username)) [
    | inl same ↦ absurd (
        true_ne_false
          (sym own ∙ ap (matches username) (sym ((eq_iff owner username).0 same)) ∙ missed))
    | inr other ↦ rw (missed, other) (lookup-delete matches username s own)
  ]
]
  where
    true_ne_false : ◌≢◌ {A = Bool} true false
    true_ne_false e = cc

-- Writing passwords of the user keeps what the pattern finds to the user.
pub insert-MatchesOwn :
    (matches : Matches) (username : String) (d : Dict PasswordHash) (s : EmailStore)
    → matches username username ≡ true
    → MatchesOwn matches username s
    → MatchesOwn matches username (insert username d s)
insert-MatchesOwn matches username d s found own =
    insert-AllEntries
      (λ owner (d : Dict PasswordHash). matches username owner ≡ str_eq owner username) username d s
      (found ∙ sym (eq_refl username)) own
