-- ===== src/Tokens/Models.antt =====
-- selfprivacy_api/models/tokens/{token,recovery_key,new_device_key}.py and the errors of
-- selfprivacy_api/exceptions/tokens.py. Key bytes are kept as their hexadecimal text.
use selfprivacy_api.Base.{ℕ, ◌+◌, String, Char, Bool, false, Option, none, some, ◌&&◌, not, str_eq}
use selfprivacy_api.Base.Int.{ℤ, is_nonpos}
use selfprivacy_api.Base.Time.{Datetime, naive, aware, ensure_timezone, is_past, datetime_eq}

pub data TokenError : Type 0 where
  token_not_found recovery_key_not_found new_device_key_not_found : TokenError
  invalid_mnemonic cannot_delete_caller expiration_date_in_the_past : TokenError
  invalid_uses_left value_error out_of_fuel : TokenError

-- What one call takes from outside: the clock, the random generators (`digits` are the characters
-- `str(randbelow(10))` in the order drawn), `md5` and the `mnemonic` package.
pub record Env : Type 0 where
  pub now : ℕ
  pub local_now : ℕ
  pub token_urlsafe : String
  pub token_bytes : String
  pub digits : ℕ → Char
  pub md5_hex : String → String
  pub check : String → Bool
  pub to_entropy : String → String
  pub to_mnemonic : String → String

pub record Token : Type 0 where
  pub token : String
  pub device_name : String
  pub created_at : Datetime

-- `Token.__eq__`
unfoldable pub token_eq : Token → Token → Bool
token_eq a b =
    str_eq a.token b.token
    && str_eq a.device_name b.device_name
    && datetime_eq a.created_at b.created_at

unfoldable pub generate_token : Env → String → Token
generate_token env device_name = record {
  token = env.token_urlsafe;
  device_name = device_name;
  created_at = naive env.local_now;
}

pub record RecoveryKey : Type 0 where
  pub key : String
  pub created_at : Datetime
  pub expires_at : Option Datetime
  pub uses_left : Option ℤ

abbrev pub is_past? : ℕ → Option Datetime → Bool
is_past? now none = false
is_past? now (some dt) = is_past now dt

abbrev pub is_used_up : Option ℤ → Bool
is_used_up none = false
is_used_up (some n) = is_nonpos n

unfoldable pub recovery_key_is_valid : ℕ → RecoveryKey → Bool
recovery_key_is_valid now k = not (is_past? now k.expires_at) && not (is_used_up k.uses_left)

abbrev pub ensure_timezone? : Option Datetime → Option Datetime
ensure_timezone? none = none
ensure_timezone? (some dt) = some (ensure_timezone dt)

unfoldable pub generate_recovery_key : Env → Option Datetime → Option ℤ → RecoveryKey
generate_recovery_key env expiration uses_left = record {
  key = env.token_bytes;
  created_at = aware env.now;
  expires_at = ensure_timezone? expiration;
  uses_left = uses_left;
}

pub record NewDeviceKey : Type 0 where
  pub key : String
  pub created_at : Datetime
  pub expires_at : Datetime

unfoldable pub new_device_key_is_valid : ℕ → NewDeviceKey → Bool
new_device_key_is_valid now k = not (is_past now k.expires_at)

-- The key lives for `timedelta(minutes=10)`.
unfoldable pub generate_new_device_key : Env → NewDeviceKey
generate_new_device_key env = record {
  key = env.token_bytes;
  created_at = aware env.now;
  expires_at = aware (env.now + 600);
}
