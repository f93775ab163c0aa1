-- ===== src/Tokens/Actions.antt =====
-- selfprivacy_api/actions/api_tokens.py: the actions on tokens that the API exposes.
use selfprivacy_api.Base.{
  String, Bool, true, false, Option, none, some, List, map, str_eq, Result, ok, err, pure, gets,
  raise_if, ◌>>=◌, ◌>>◌, not,
}
use selfprivacy_api.Base.Int.{ℤ}
use selfprivacy_api.Base.Time.{Datetime, ensure_tz_aware, ensure_tz_aware_strict}
use selfprivacy_api.Tokens.Models.{
  Env, Token, TokenError, token_not_found, recovery_key_not_found, new_device_key_not_found,
  invalid_mnemonic, cannot_delete_caller, expiration_date_in_the_past, invalid_uses_left,
  value_error, is_past?, is_used_up,
}
use selfprivacy_api.Tokens.Repo.{
  Call, or_raise, get_tokens, get_token_by_token_string, get_token_by_name, delete_token,
  refresh_token, is_token_name_pair_valid, is_token_name_exists, create_recovery_key,
  is_recovery_key_valid, use_mnemonic_recovery_key, get_new_device_key, use_mnemonic_new_device_key,
}

pub record TokenInfoWithIsCaller : Type 0 where
  pub name : String
  pub date : Datetime
  pub is_caller : Bool

unfoldable pub get_api_tokens_with_caller_flag : String → Call (List TokenInfoWithIsCaller)
unfolding get_token_by_token_string get_tokens
get_api_tokens_with_caller_flag caller_token = do
  caller ← get_token_by_token_string caller_token
  ts ← gets get_tokens
  pure (
      map
        (λ (t : Token). record {
          name = t.device_name;
          date = t.created_at;
          is_caller = str_eq t.device_name caller.device_name;
        })
        ts)

unfoldable pub delete_api_token : String → String → Call (Unit {0})
delete_api_token caller_token token_name = do
  raise_if (← gets (is_token_name_pair_valid token_name caller_token)) cannot_delete_caller
  raise_if (not (← gets (is_token_name_exists token_name))) token_not_found
  token ← get_token_by_name token_name
  delete_token token

unfoldable pub refresh_api_token : Env → String → Call String
refresh_api_token env caller_token = do
  old_token ← get_token_by_token_string caller_token
  new_token ← refresh_token env old_token
  pure new_token.token

pub record RecoveryTokenStatus : Type 0 where
  pub exists : Bool
  pub valid : Bool
  pub date : Option Datetime
  pub expiration : Option Datetime
  pub uses_left : Option ℤ

abbrev pub strict? : Option Datetime → Call (Option Datetime)
strict? none = pure none
strict? (some dt) = do d ← or_raise (ensure_tz_aware_strict dt) value_error; pure (some d)

unfoldable pub get_api_recovery_token_status : Env → Call RecoveryTokenStatus
get_api_recovery_token_status env = do
  key ← gets (λ r. r.recovery_key)
  is_valid ← gets (is_recovery_key_valid env.now)
  elim key [
    | none ↦
        pure (record {
          exists = false;
          valid = false;
          date = none;
          expiration = none;
          uses_left = none;
        })
    | some k ↦ do
      expiry_date ← strict? k.expires_at
      date ← or_raise (ensure_tz_aware_strict k.created_at) value_error
      pure (record {
        exists = true;
        valid = is_valid;
        date = some date;
        expiration = expiry_date;
        uses_left = k.uses_left;
      })
  ]

abbrev pub ensure_tz_aware? : Option Datetime → Option Datetime
ensure_tz_aware? none = none
ensure_tz_aware? (some dt) = some (ensure_tz_aware dt)

-- The result is the mnemonic phrase of the new key.
unfoldable pub get_new_api_recovery_key : Env → Option Datetime → Option ℤ → Call String
unfolding create_recovery_key
get_new_api_recovery_key env expiration_date uses_left = do
  let expiration = ensure_tz_aware? expiration_date
  raise_if (is_past? env.now expiration) expiration_date_in_the_past
  raise_if (is_used_up uses_left) invalid_uses_left
  key ← create_recovery_key env expiration uses_left
  pure (env.to_mnemonic key.key)

-- `except (RecoveryKeyNotFound, InvalidMnemonic): return None`
abbrev pub recovery_result : Result TokenError Token → Result TokenError (Option String)
recovery_result (ok t) = ok (some t.token)
recovery_result (err recovery_key_not_found) = ok none
recovery_result (err invalid_mnemonic) = ok none
recovery_result (err e) = err e

unfoldable pub use_mnemonic_recovery_token : Env → String → String → Call (Option String)
use_mnemonic_recovery_token env phrase name r =
    let (result, r') = use_mnemonic_recovery_key env phrase name r in (recovery_result result, r')

unfoldable pub get_new_device_auth_token : Env → Call String
unfolding get_new_device_key
get_new_device_auth_token env = do key ← get_new_device_key env; pure (env.to_mnemonic key.key)

-- `except (NewDeviceKeyNotFound, InvalidMnemonic): return None`
abbrev pub new_device_result : Result TokenError Token → Result TokenError (Option String)
new_device_result (ok t) = ok (some t.token)
new_device_result (err new_device_key_not_found) = ok none
new_device_result (err invalid_mnemonic) = ok none
new_device_result (err e) = err e

unfoldable pub use_new_device_auth_token : Env → String → String → Call (Option String)
use_new_device_auth_token env phrase name r =
    let (result, r') = use_mnemonic_new_device_key env phrase name r in
    (new_device_result result, r')
