-- ===== src/Migrations/InitialToken.antt =====
-- `WriteTokenToRedis` of selfprivacy_api/migrations/write_token_to_redis.py. `env` makes the Redis
-- key of a device name, `now` is `datetime.now()`.
use selfprivacy_api.Migrations.Run.{Migration}
use selfprivacy_api.Tokens.Repo.{Repo, get_tokens, store_token}
use selfprivacy_api.Tokens.Models.{Env, Token}
use selfprivacy_api.Base.Time.{Datetime}
use selfprivacy_api.Base.{
  ◌&&◌, is_some, String, Bool, true, false, Option, none, some, List, [], ◌∷◌, ok,
}

-- `userdata["api"]["token"]` of secrets.json, none if anything is missing
abbrev pub token_from_json : (secret_token : Option String) → Datetime → Option Token
token_from_json none now = none
token_from_json (some t) now =
    some (record { token = t; device_name = "Initial device"; created_at = now })

abbrev no_tokens : List Token → Bool
no_tokens [] = true
no_tokens (_ ∷ _) = false

unfoldable pub is_repo_empty : Repo → Bool
unfolding get_tokens
is_repo_empty r = no_tokens (get_tokens r)

abbrev pub stored_or_not : Env → Option Token → Repo → Repo
stored_or_not env none r = r
stored_or_not env (some t) r = (store_token env t r).1

unfoldable pub write_token_to_redis :
    Env → (secret_token : Option String) → (now : Datetime) → Migration Repo
unfolding is_repo_empty store_token
write_token_to_redis env secret_token now = record {
  get_migration_name = "write_token_to_redis";
  is_migration_needed =
      λ r. (ok (is_some (token_from_json secret_token now) && is_repo_empty r), r);
  migrate = λ r. (ok tt, stored_or_not env (token_from_json secret_token now) r);
}
