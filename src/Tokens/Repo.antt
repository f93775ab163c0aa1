-- ===== src/Tokens/Repo.antt =====
-- `AbstractTokensRepository` and `RedisTokensRepository`
-- (selfprivacy_api/repositories/tokens/). A Redis hash of a model is kept as the model; the token
-- hashes are a dict from the Redis key. SCAN's order is the order of insertion.
use Prim.Native.String.{◌++◌ as str_append}
use selfprivacy_api.Base.{
  ℕ, String, Bool, false, Option, none, some, List, [], ◌∷◌, str_eq, if◌then◌else◌, any, Dict,
  insert, erase, values, Action, pure, raise, gets, modify, raise_if, ◌>>=◌, ◌>>◌, not, map,
}
use selfprivacy_api.Base.Int.{ℤ, pred_ℤ}
use selfprivacy_api.Base.Time.{Datetime, ensure_timezone, strip_timezone}
use selfprivacy_api.Tokens.Models.{
  Env, Token, token_eq, generate_token, RecoveryKey, recovery_key_is_valid, generate_recovery_key,
  NewDeviceKey, new_device_key_is_valid, generate_new_device_key, TokenError, token_not_found,
  recovery_key_not_found, new_device_key_not_found, invalid_mnemonic, out_of_fuel,
}
use selfprivacy_api.Tokens.Names.{name_exists, make_unique_device_name}

-- What the repository keeps in Redis.
pub record Repo : Type 0 where
  pub tokens : Dict Token
  pub recovery_key : Option RecoveryKey
  pub new_device_key : Option NewDeviceKey

abbrev pub Call : Type 0 → Type 0
Call A = Action Repo TokenError A

unfoldable pub token_key_for_device : Env → String → String
token_key_for_device env device_name = str_append "token_repo:tokens:" (env.md5_hex device_name)

-- A token as it is read, `token.created_at.replace(tzinfo=None)`, where neither its text nor its name
-- is "None"; Tokens/Reading.antt has the reading that raises.
abbrev pub loaded : Token → Token
loaded t = record t { created_at = strip_timezone t.created_at }

-- `_store_model_as_hash` writes a naive date as UTC.
abbrev pub stored : Token → Token
stored t = record t { created_at = ensure_timezone t.created_at }

-- Where no token has the text or the name "None"
unfoldable pub get_tokens : Repo → List Token
get_tokens r = map loaded (values r.tokens)

-- `_discover_token_key`
unfoldable pub discover_token_key : Token → Dict Token → Option String
discover_token_key t [] = none
discover_token_key t ((k, u) ∷ d) = if token_eq (loaded u) t then some k else discover_token_key t d

abbrev pub or_raise : {A : Type 0} → Option A → TokenError → Call A
or_raise none e = raise e
or_raise (some a) e = pure a

-- `next(x for x in xs if p(x))`
abbrev pub find : {A : Type 0} → (A → Bool) → List A → Option A
find p [] = none
find p (x ∷ xs) = if p x then some x else find p xs

unfoldable pub get_token_by_token_string : String → Call Token
unfolding get_tokens
get_token_by_token_string s = do
  ts ← gets get_tokens
  or_raise (find (λ t. str_eq t.token s) ts) token_not_found

unfoldable pub get_token_by_name : String → Call Token
unfolding get_tokens
get_token_by_name name = do
  ts ← gets get_tokens
  or_raise (find (λ t. str_eq t.device_name name) ts) token_not_found

unfoldable pub store_token : Env → Token → Call (Unit {0})
store_token env t =
    modify (λ r. record r {
      tokens = insert (token_key_for_device env t.device_name) (stored t) r.tokens;
    })

unfoldable pub delete_token : Token → Call (Unit {0})
unfolding discover_token_key
delete_token t = do
  key ← or_raise (← gets (λ r. discover_token_key t r.tokens)) token_not_found
  modify (λ r. record r { tokens = erase key r.tokens })

unfoldable pub create_token : Env → String → Call Token
unfolding generate_token store_token get_tokens
create_token env device_name = do
  ts ← gets get_tokens
  unique_name ← or_raise (make_unique_device_name env.digits ts device_name) out_of_fuel
  store_token env (generate_token env unique_name)
  pure (generate_token env unique_name)

unfoldable pub refresh_token : Env → Token → Call Token
unfolding generate_token store_token delete_token get_tokens
refresh_token env input_token = do
  let new_token = record (generate_token env input_token.device_name) {
    created_at = input_token.created_at;
  }
  ts ← gets get_tokens
  raise_if (not (any (λ t. token_eq t input_token) ts)) token_not_found
  delete_token input_token
  store_token env new_token
  pure new_token

unfoldable pub is_token_valid : String → Repo → Bool
unfolding get_tokens
is_token_valid s r = any (λ t. str_eq t.token s) (get_tokens r)

unfoldable pub is_token_name_exists : String → Repo → Bool
unfolding get_tokens
is_token_name_exists name r = name_exists (get_tokens r) name

-- The `try`/`except TokenNotFound` around `get_token_by_name`.
unfoldable pub is_token_name_pair_valid : String → String → Repo → Bool
unfolding get_tokens
is_token_name_pair_valid name s r = elim (find (λ t. str_eq t.device_name name) (get_tokens r)) [
  | none ↦ false
  | some t ↦ str_eq t.token s
]

-- `get_recovery_key() is not None and recovery_key.is_valid()`
abbrev pub is_recovery_key_valid : ℕ → Repo → Bool
is_recovery_key_valid now r = elim r.recovery_key [
  | none ↦ false
  | some k ↦ recovery_key_is_valid now k
]

unfoldable pub create_recovery_key : Env → Option Datetime → Option ℤ → Call RecoveryKey
create_recovery_key env expiration uses_left = do
  modify (λ r. record r { recovery_key = some (generate_recovery_key env expiration uses_left) })
  pure (generate_recovery_key env expiration uses_left)

-- `raise InvalidMnemonic` on a text that is no mnemonic, else whether it encodes the key
unfoldable pub assert_mnemonic : Env → String → String → Call Bool
assert_mnemonic env hex_key phrase = do
  raise_if (not (env.check phrase)) invalid_mnemonic
  pure (str_eq (env.to_entropy phrase) hex_key)

abbrev pub decrement : RecoveryKey → RecoveryKey
decrement k = elim k.uses_left [ none ↦ k | some n ↦ record k { uses_left = some (pred_ℤ n) } ]

unfoldable pub decrement_recovery_token : ℕ → Call (Unit {0})
decrement_recovery_token now = modify λ r. elim r.recovery_key [
  | none ↦ r
  | some k ↦
      if recovery_key_is_valid now k then record r { recovery_key = some (decrement k) } else r
]

-- The clock is read once for the two tests of the key.
unfoldable pub use_mnemonic_recovery_key : Env → String → String → Call Token
unfolding assert_mnemonic
use_mnemonic_recovery_key env phrase device_name = do
  raise_if (not (← gets (is_recovery_key_valid env.now))) recovery_key_not_found
  recovery_key ← or_raise (← gets (λ r. r.recovery_key)) recovery_key_not_found
  raise_if (not (← assert_mnemonic env recovery_key.key phrase)) recovery_key_not_found
  new_token ← create_token env device_name
  decrement_recovery_token env.now
  pure new_token

unfoldable pub get_new_device_key : Env → Call NewDeviceKey
get_new_device_key env = do
  modify (λ r. record r { new_device_key = some (generate_new_device_key env) })
  pure (generate_new_device_key env)

unfoldable pub delete_new_device_key : Call (Unit {0})
delete_new_device_key = modify (λ r. record r { new_device_key = none })

unfoldable pub use_mnemonic_new_device_key : Env → String → String → Call Token
unfolding assert_mnemonic delete_new_device_key
use_mnemonic_new_device_key env phrase device_name = do
  key ← or_raise (← gets (λ r. r.new_device_key)) new_device_key_not_found
  raise_if (not (new_device_key_is_valid env.now key)) new_device_key_not_found
  raise_if (not (← assert_mnemonic env key.key phrase)) invalid_mnemonic
  new_token ← create_token env device_name
  delete_new_device_key
  pure new_token

-- `for token in ...: await self.delete_token(token)`
abbrev pub delete_tokens : List Token → Call (Unit {0})
delete_tokens [] = pure tt
delete_tokens (t ∷ ts) = delete_token t >> delete_tokens ts

unfoldable pub reset : Call (Unit {0})
unfolding get_tokens delete_token delete_new_device_key
reset = do
  ts ← gets get_tokens
  delete_tokens ts
  delete_new_device_key
  modify (λ r. record r { recovery_key = none })
