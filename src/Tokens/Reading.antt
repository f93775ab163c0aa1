-- ===== src/Tokens/Reading.antt =====
-- How `RedisTokensRepository` reads the hashes of the tokens, with the exception that a token with
-- the text "None" makes every reading raise
-- (selfprivacy_api/repositories/tokens/redis_tokens_repository.py).
use selfprivacy_api.Base.{
  String, ◌≡◌, refl, ap, ◌∙◌, Bool, true, not, ◌&&◌, ◌||◌, List, [], ◌∷◌, map, arith, str_eq,
  if◌then◌else◌, Dict, insert, values, any, Result, ok, err,
}
use selfprivacy_api.Tokens.Models.{Token, TokenError, value_error}
use selfprivacy_api.Tokens.Repo.{Repo, loaded, get_tokens, is_token_valid}

-- `"None"` is read back as `None`, which a token cannot have as its text or its name.
unfoldable pub is_readable : Token → Bool
is_readable t = not (str_eq t.token "None" || str_eq t.device_name "None")

-- `_prepare_model_dict`, `Token(**token_dict)` and the time zone that is taken off
unfoldable pub token_from_hash : Token → Result TokenError Token
unfolding is_readable
token_from_hash t = if is_readable t then ok (loaded t) else err value_error

abbrev cons_result :
    Result TokenError Token → Result TokenError (List Token) → Result TokenError (List Token)
cons_result (err e) rest = err e
cons_result (ok t) (err e) = err e
cons_result (ok t) (ok ts) = ok (t ∷ ts)

-- The tokens of `_tokens_by_key`
unfoldable pub read_tokens : Dict Token → Result TokenError (List Token)
unfolding token_from_hash
read_tokens [] = ok []
read_tokens ((key, t) ∷ d) = cons_result (token_from_hash t) (read_tokens d)

abbrev has_text : String → Result TokenError (List Token) → Result TokenError Bool
has_text s (err e) = err e
has_text s (ok ts) = ok (any (λ t. str_eq t.token s) ts)

-- `is_token_valid`, with the exception of a token that cannot be read
unfoldable pub check_token : String → Repo → Result TokenError Bool
unfolding read_tokens
check_token s r = has_text s (read_tokens r.tokens)

abbrev pub all_readable : Dict Token → Bool
all_readable [] = true
all_readable ((key, t) ∷ d) = is_readable t && all_readable d

token_from_hash-readable : (t : Token) → is_readable t ≡ true → token_from_hash t ≡ ok (loaded t)
unfolding token_from_hash
token_from_hash-readable t h = rw (h, token_from_hash) refl

-- Where every token can be read, a reading gives all of them.
read_tokens-readable :
    (d : Dict Token) → all_readable d ≡ true → read_tokens d ≡ ok (map loaded (values d))
unfolding read_tokens token_from_hash
read_tokens-readable [] h = refl
read_tokens-readable ((key, t) ∷ d) h =
    let now : is_readable t ≡ true = ground arith in
    let rest = read_tokens-readable d (ground arith) in
    ap (λ r. cons_result r (read_tokens d)) (token_from_hash-readable t now)
    ∙ ap (cons_result (ok (loaded t))) rest

pub check_token-readable :
    (s : String) (r : Repo)
    → all_readable r.tokens ≡ true
    → check_token s r ≡ ok (is_token_valid s r)
unfolding check_token is_token_valid get_tokens
check_token-readable s r h = ap (has_text s) (read_tokens-readable r.tokens h)

pub all_readable-insert :
    (key : String) (t : Token) (d : Dict Token)
    → is_readable t ≡ true
    → all_readable d ≡ true
    → all_readable (insert key t d) ≡ true
unfolding insert
all_readable-insert key t [] has h = simp has
all_readable-insert key t ((j, u) ∷ d) has h = ground (arith, all_readable-insert key t d has)
