-- ===== src/Tokens/Flow.antt =====
-- Creating a token always succeeds and its text is valid at once; the way from a phrase to a token.
use selfprivacy_api.Base.{
  ◌>>=◌, ◌∙◌, ℕ, Bool, false, Result, err, String, ◌≡◌, refl, ap, true, Option, none, some, [], ◌∷◌,
  map, arith, str_eq, eq_iff, eq_refl, Dict, insert, values, any, ok,
}
use selfprivacy_api.Base.Int.{ℤ}
use selfprivacy_api.Base.Time.{Datetime, naive, aware}
use selfprivacy_api.Tokens.Models.{
  Env, Token, TokenError, generate_token, RecoveryKey, recovery_key_is_valid, generate_recovery_key,
  is_past?, is_used_up, ensure_timezone?,
}
use selfprivacy_api.Tokens.Names.{name_exists, make_unique_device_name_fresh}
use selfprivacy_api.Tokens.Repo.{
  Repo, loaded, stored, get_tokens, or_raise, store_token, create_token, is_token_valid,
  is_recovery_key_valid, decrement_recovery_token, use_mnemonic_recovery_key,
}
use selfprivacy_api.Tokens.Reading.{
  is_readable, all_readable, check_token, check_token-readable, all_readable-insert,
}
use selfprivacy_api.Tokens.Actions.{
  ensure_tz_aware?, get_new_api_recovery_key, use_mnemonic_recovery_token,
}

-- `create_token` always returns a token: it has the drawn text, and a name that no token of the
-- repository had.
pub create_token_total :
    (env : Env) (name : String) (r : Repo)
    → (t : Token) × ((create_token env name r).0 ≡ ok t)
      × (t.token ≡ env.token_urlsafe)
      × (name_exists (get_tokens r) t.device_name ≡ false)
unfolding create_token
create_token_total env name r =
    let (n, e, new) = make_unique_device_name_fresh env.digits (get_tokens r) name in
    (generate_token env n, rw (e, or_raise), refl, new)

is_token_valid-insert :
    (k : String) (t : Token) (d : Dict Token)
    → any (λ u. str_eq u.token t.token) (map loaded (values (insert k t d))) ≡ true
unfolding insert
is_token_valid-insert k t [] = ground (arith, eq_iff t.token t.token)
is_token_valid-insert k t ((j, u) ∷ d) =
    ground (arith, eq_iff t.token t.token, is_token_valid-insert k t d)

-- The text of a new token is accepted at once.
pub create_token_valid :
    (env : Env) (name : String) (r : Repo)
    → is_token_valid env.token_urlsafe (create_token env name r).1 ≡ true
unfolding create_token is_token_valid
create_token_valid env name r =
    let (n, e, new) = make_unique_device_name_fresh env.digits (get_tokens r) name in
    rw (e, or_raise) (is_token_valid-insert _ _ r.tokens)

decrement_recovery_token-tokens :
    (now : ℕ) (r : Repo) → (decrement_recovery_token now r).1.tokens ≡ r.tokens
unfolding decrement_recovery_token
decrement_recovery_token-tokens now r = ground arith

decrement-is_token_valid :
    (now : ℕ) (s : String) (r : Repo)
    → is_token_valid s (decrement_recovery_token now r).1 ≡ is_token_valid s r
unfolding is_token_valid
decrement-is_token_valid now s r =
    ap (λ d. any (λ t. str_eq t.token s) (map loaded (values d)))
      (decrement_recovery_token-tokens now r)

-- An attempt with a valid key and the right phrase returns what `create_token` returns.
use_mnemonic_recovery_key_accepts :
    (env : Env) (phrase name : String) (r : Repo) (k : RecoveryKey) (t : Token)
    → r.recovery_key ≡ some k
    → recovery_key_is_valid env.now k ≡ true
    → env.check phrase ≡ true
    → env.to_entropy phrase ≡ k.key
    → (create_token env name r).0 ≡ ok t
    → use_mnemonic_recovery_key env phrase name r
      ≡ (ok t, (decrement_recovery_token env.now (create_token env name r).1).1)
unfolding use_mnemonic_recovery_key decrement_recovery_token
use_mnemonic_recovery_key_accepts env phrase name r k t e v c d made =
    simp (e, v, c, d, eq_refl, is_recovery_key_valid, or_raise) (rw (made, ◌>>=◌))

-- What a call of `get_new_api_recovery_key` that returns has stored.
get_new_api_recovery_key_stores :
    (env : Env) (expiration : Option Datetime) (uses_left : Option ℤ) (phrase : String)
    (r r' : Repo)
    → get_new_api_recovery_key env expiration uses_left r ≡ (ok phrase, r')
    → (r'.recovery_key ≡ some (generate_recovery_key env (ensure_tz_aware? expiration) uses_left))
      × (is_used_up uses_left ≡ false)
unfolding get_new_api_recovery_key
get_new_api_recovery_key_stores env expiration uses_left phrase r r' made = ground arith

generate_recovery_key_valid :
    (env : Env) (now : ℕ) (expiration : Option Datetime) (uses_left : Option ℤ)
    → is_used_up uses_left ≡ false
    → is_past? now (ensure_timezone? expiration) ≡ false
    → recovery_key_is_valid now (generate_recovery_key env (ensure_tz_aware? expiration) uses_left)
      ≡ true
unfolding generate_recovery_key recovery_key_is_valid
generate_recovery_key_valid env now none uses_left u p = rw u
generate_recovery_key_valid env now (some (naive t)) uses_left u p = rw (u, p)
generate_recovery_key_valid env now (some (aware t)) uses_left u p = rw (u, p)

decrement-readable :
    (now : ℕ) (r : Repo)
    → all_readable r.tokens ≡ true
    → all_readable (decrement_recovery_token now r).1.tokens ≡ true
decrement-readable now r h = ap all_readable (decrement_recovery_token-tokens now r) ∙ h

abbrev is_readable_result : Result TokenError Token → Bool
is_readable_result (ok t) = is_readable t
is_readable_result (err e) = false

create_token-readable :
    (env : Env) (name : String) (r : Repo) (t : Token)
    → (create_token env name r).0 ≡ ok t
    → is_readable t ≡ true
    → all_readable r.tokens ≡ true
    → all_readable (create_token env name r).1.tokens ≡ true
unfolding create_token store_token generate_token is_readable
create_token-readable env name r t made readable h =
    let (n, e, new) = make_unique_device_name_fresh env.digits (get_tokens r) name in
    let same : is_readable (generate_token env n) ≡ true =
      ap is_readable_result (rw (e, or_raise) at made) ∙ readable in
    rw (e, or_raise) (all_readable-insert _ (stored (generate_token env n)) r.tokens same h)

-- A phrase that `get_new_api_recovery_key` handed out, and that the `mnemonic` package accepts and
-- decodes to the key's bytes, lets a device in at any time up to the expiration date: the call
-- returns a new token, and the check of its text afterwards answers that it is valid. Neither the
-- stored tokens nor the new one have the text or the name "None", with which the check would raise.
pub recovery_phrase_works :
    (env env' : Env) (expiration : Option Datetime) (uses_left : Option ℤ) (phrase name : String)
    (r r' : Repo) (t : Token)
    → get_new_api_recovery_key env expiration uses_left r ≡ (ok phrase, r')
    → env'.check phrase ≡ true
    → env'.to_entropy phrase ≡ env.token_bytes
    → is_past? env'.now (ensure_timezone? expiration) ≡ false
    → all_readable r'.tokens ≡ true
    → (create_token env' name r').0 ≡ ok t
    → is_readable t ≡ true
    → let (result, after) = use_mnemonic_recovery_token env' phrase name r' in
      (result ≡ ok (some env'.token_urlsafe)) × (check_token env'.token_urlsafe after ≡ ok true)
unfolding use_mnemonic_recovery_token generate_recovery_key
recovery_phrase_works env env' expiration uses_left phrase name r r' t made known decodes live
      stored_readable created readable =
    let (key, unused) = get_new_api_recovery_key_stores env expiration uses_left phrase r r' made in
    let (t', created', text, _) = create_token_total env' name r' in
    let done =
      use_mnemonic_recovery_key_accepts env' phrase name r' _ t' key
        (generate_recovery_key_valid env env'.now expiration uses_left unused live) known decodes
        created' in
    let now = env'.now in
    let after = (decrement_recovery_token now (create_token env' name r').1).1 in
    (
      rw done (ap (λ s. ok (some s)) text),
      rw done (
          check_token-readable env'.token_urlsafe after (
            decrement-readable now (create_token env' name r').1
              (create_token-readable env' name r' t created readable stored_readable))
          ∙ ap ok (
              decrement-is_token_valid now env'.token_urlsafe (create_token env' name r').1
              ∙ create_token_valid env' name r')),
    )
