-- ===== src/Tokens/Tests.antt =====
-- The theorems on tokens at concrete inputs.
use selfprivacy_api.Base.{
  ℕ, ◌≤◌, String, ◌≡◌, refl, true, false, none, some, [], ◌∷◌, lookup, insert, ok, err,
}
use selfprivacy_api.Base.Int.{pos}
use selfprivacy_api.Base.Time.{naive, aware}
use selfprivacy_api.Tokens.Models.{
  Env, Token, generate_token, RecoveryKey, recovery_key_is_valid, new_device_key_is_valid,
  new_device_key_not_found,
}
use selfprivacy_api.Tokens.Names.{
  name_exists, make_unique_device_name, make_unique_device_name_fresh,
}
use selfprivacy_api.Tokens.Repo.{
  Repo, token_key_for_device, get_tokens, store_token, create_token, is_token_valid,
  decrement_recovery_token, use_mnemonic_recovery_key, use_mnemonic_new_device_key,
}
use selfprivacy_api.Tokens.Actions.{
  delete_api_token, get_new_api_recovery_key, use_mnemonic_recovery_token,
}
use selfprivacy_api.Tokens.Invariant.{IsValid, create_token-IsValid}
use selfprivacy_api.Tokens.Recovery.{Attempt, successes, successes-le}
use selfprivacy_api.Tokens.Reading.{is_readable, check_token}
use selfprivacy_api.Tokens.Flow.{recovery_phrase_works}
use selfprivacy_api.Tokens.Devices.{new_device_key_single_use, delete_api_token_keeps_caller}

abbrev env_at : ℕ → Env
env_at now = record {
  now = now;
  local_now = now;
  token_urlsafe = "fresh";
  token_bytes = "c0ffee";
  digits = λ i. "7";
  md5_hex = λ s. s;
  check = λ s. true;
  to_entropy = λ s. s;
  to_mnemonic = λ s. s;
}

abbrev phone : Token
phone = record { token = "old"; device_name = "phone"; created_at = aware 5 }

abbrev key : RecoveryKey
key = record { key = "c0ffee"; created_at = aware 1; expires_at = none; uses_left = some (pos 2) }

abbrev repo : Repo
repo = record {
  tokens = ("token_repo:tokens:phone", phone) ∷ [];
  recovery_key = some key;
  new_device_key = none;
}

abbrev attempt : Attempt
attempt = record { env = env_at 10; phrase = "c0ffee"; name = "laptop" }

-- Two of four attempts go through.
successes-repo : successes (attempt ∷ attempt ∷ attempt ∷ attempt ∷ []) repo ≡ 2
unfolding successes use_mnemonic_recovery_key create_token decrement_recovery_token
    make_unique_device_name recovery_key_is_valid generate_token store_token token_key_for_device
    insert
successes-repo = refl

successes-le_example : successes (attempt ∷ attempt ∷ attempt ∷ attempt ∷ []) repo ≤ 2
successes-le_example =
    successes-le (attempt ∷ attempt ∷ attempt ∷ attempt ∷ []) repo key 2 refl refl

recovery_phrase_works_example :
    let (result, after) =
      use_mnemonic_recovery_token
        (env_at 10)
        "c0ffee"
        "laptop"
        (get_new_api_recovery_key (env_at 3) (some (naive 20)) (some (pos 1)) repo).1 in
    (result ≡ ok (some "fresh")) × (check_token "fresh" after ≡ ok true)
unfolding get_new_api_recovery_key selfprivacy_api.Tokens.Models.generate_recovery_key is_readable
    create_token make_unique_device_name
recovery_phrase_works_example =
    recovery_phrase_works (env_at 3) (env_at 10) (some (naive 20)) (some (pos 1)) "c0ffee" "laptop"
      repo (get_new_api_recovery_key (env_at 3) (some (naive 20)) (some (pos 1)) repo).1
      (generate_token (env_at 10) "laptop") refl refl refl refl refl refl refl

abbrev with_device_key : Repo
with_device_key = record repo {
  new_device_key = some (record { key = "c0ffee"; created_at = aware 0; expires_at = aware 600 });
}

new_device_key_single_use_example :
    let r' = (use_mnemonic_new_device_key (env_at 10) "c0ffee" "laptop" with_device_key).1 in
    use_mnemonic_new_device_key (env_at 11) "c0ffee" "tablet" r'
    ≡ (err new_device_key_not_found, r')
unfolding use_mnemonic_new_device_key new_device_key_is_valid create_token make_unique_device_name
    generate_token store_token token_key_for_device insert
new_device_key_single_use_example =
    new_device_key_single_use (env_at 10) (env_at 11) "c0ffee" "c0ffee" "laptop" "tablet"
      (generate_token (env_at 10) "laptop") with_device_key
      (use_mnemonic_new_device_key (env_at 10) "c0ffee" "laptop" with_device_key).1 refl

delete_api_token_keeps_caller_example :
    is_token_valid "old" (delete_api_token "old" "phone" repo).1 ≡ true
unfolding is_token_valid lookup
delete_api_token_keeps_caller_example =
    delete_api_token_keeps_caller "old" "phone" repo (refl, tt) refl

make_unique_device_name_fresh_example :
    (r : String) × (make_unique_device_name (env_at 1).digits (get_tokens repo) "phone" ≡ some r)
    × (name_exists (get_tokens repo) r ≡ false)
make_unique_device_name_fresh_example =
    make_unique_device_name_fresh (env_at 1).digits (get_tokens repo) "phone"

repo-IsValid : IsValid (env_at 1) repo
unfolding token_key_for_device lookup
repo-IsValid = record { keyed = (refl, tt); once = (refl, tt) }

create_token-IsValid_example : IsValid (env_at 1) (create_token (env_at 1) "phone" repo).1
create_token-IsValid_example = create_token-IsValid (env_at 1) "phone" repo repo-IsValid
