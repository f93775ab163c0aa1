-- ===== src/Tokens/Devices.antt =====
-- New device keys serve once and for ten minutes; a caller cannot delete its own token.
use selfprivacy_api.Base.{
  ◌∙◌, ◌||◌, ap, List, ◌+◌, ◌<◌, String, ◌≡◌, refl, ◌≢◌, inl, inr, Bool, true, false, Option, none,
  some, [], ◌∷◌, map, arith, str_eq, eq_iff, if◌then◌else◌, Bool-cases, Option-cases, Dict, lookup,
  erase, values, NodupKeys, any, Result, ok, err, pure, ◌>>=◌, ◌>>◌,
}
use selfprivacy_api.Tokens.Models.{
  Env, Token, token_eq, NewDeviceKey, new_device_key_is_valid, generate_new_device_key, TokenError,
  new_device_key_not_found,
}
use selfprivacy_api.Tokens.Names.{make_unique_device_name}
use selfprivacy_api.Tokens.Repo.{
  is_token_name_exists, is_token_name_pair_valid, delete_token, get_token_by_name, find,
  is_token_valid, Repo, loaded, get_tokens, discover_token_key, or_raise, create_token,
  delete_new_device_key, use_mnemonic_new_device_key,
}
use selfprivacy_api.Tokens.Actions.{
  delete_api_token, get_new_device_auth_token, use_new_device_auth_token,
}
use selfprivacy_api.Tokens.Recovery.{succeeded}

create_token-new_device_key :
    (env : Env) (name : String) (r : Repo)
    → (create_token env name r).1.new_device_key ≡ r.new_device_key
unfolding create_token
create_token-new_device_key env name r =
    elim (Option-cases (make_unique_device_name env.digits (get_tokens r) name)) [
      | inl e ↦ rw (e, or_raise)
      | inr (n, e) ↦ rw (e, or_raise)
    ]

finish_once :
    (result : Result TokenError Token) (r : Repo) (old : Option NewDeviceKey)
    → r.new_device_key ≡ old
    → let (result', r') =
        ((λ (_ : Repo). (result, r)) >>= λ t. delete_new_device_key >> pure t) r in
      r'.new_device_key ≡ (if succeeded result' then none else old)
unfolding delete_new_device_key
finish_once (ok t) r old e = refl
finish_once (err _) r old e = e

-- A use of the new device key that succeeds removes the key; one that fails leaves it.
pub use_mnemonic_new_device_key_once :
    (env : Env) (phrase name : String) (r : Repo)
    → let (result, r') = use_mnemonic_new_device_key env phrase name r in
      r'.new_device_key ≡ (if succeeded result then none else r.new_device_key)
unfolding use_mnemonic_new_device_key
use_mnemonic_new_device_key_once env phrase name r = elim (Option-cases r.new_device_key) [
  | inl e ↦ simp (e, or_raise)
  | inr (k, e) ↦ elim (Bool-cases (new_device_key_is_valid env.now k)) [
    | inr v ↦ simp (e, v, or_raise)
    | inl v ↦ elim (Bool-cases (env.check phrase)) [
      | inr c ↦ simp (e, v, c, or_raise)
      | inl c ↦ elim (Bool-cases (str_eq (env.to_entropy phrase) k.key)) [
        | inr s ↦ simp (e, v, c, s, or_raise)
        | inl s ↦
            simp (e, v, c, s, or_raise)
              (finish_once (create_token env name r).0 (create_token env name r).1 (some k)
                (rw create_token-new_device_key e))
      ]
    ]
  ]
]

use_mnemonic_new_device_key_absent :
    (env : Env) (phrase name : String) (r : Repo)
    → r.new_device_key ≡ none
    → use_mnemonic_new_device_key env phrase name r ≡ (err new_device_key_not_found, r)
unfolding use_mnemonic_new_device_key
use_mnemonic_new_device_key_absent env phrase name r e = simp (e, or_raise)

-- After a use that succeeded, every further use is refused and changes nothing, until a new key is
-- made.
pub new_device_key_single_use :
    (env env' : Env) (phrase phrase' name name' : String) (t : Token) (r r' : Repo)
    → use_mnemonic_new_device_key env phrase name r ≡ (ok t, r')
    → use_mnemonic_new_device_key env' phrase' name' r' ≡ (err new_device_key_not_found, r')
new_device_key_single_use env env' phrase phrase' name name' t r r' used =
    use_mnemonic_new_device_key_absent env' phrase' name' r'
      (rw used at (use_mnemonic_new_device_key_once env phrase name r))

-- Later than ten minutes after a key was made, no phrase gets a token by it, and nothing changes.
pub new_device_key_expires :
    (env env' : Env) (phrase name : String) (r : Repo)
    → env.now + 600 < env'.now
    → let r' = (get_new_device_auth_token env r).1 in
      use_new_device_auth_token env' phrase name r' ≡ (ok none, r')
unfolding get_new_device_auth_token use_new_device_auth_token use_mnemonic_new_device_key
    new_device_key_is_valid generate_new_device_key
new_device_key_expires env env' phrase name r late = ground arith

erase_absent : (k : String) (d : Dict Token) → lookup k d ≡ none → erase k d ≡ d
unfolding erase lookup
erase_absent k [] e = refl
erase_absent k ((j, u) ∷ d) e = ground (arith, erase_absent k d)

discover_token_key-lookup :
    (t : Token) (k : String) (d : Dict Token) → discover_token_key t d ≡ some k → lookup k d ≢ none
unfolding discover_token_key lookup
discover_token_key-lookup t k [] e = cc
discover_token_key-lookup t k ((j, u) ∷ d) e =
    ground (arith, discover_token_key-lookup t k d, eq_iff j k)

abbrev accepts : String → Dict Token → Bool
accepts s d = any (λ t. str_eq t.token s) (map loaded (values d))

token_eq_parts : (a b : Token) → token_eq (loaded a) b ≡ true → str_eq a.token b.token ≡ true
unfolding token_eq
token_eq_parts a b h = ground arith

-- Erasing the entry of one token leaves every other text valid.
accepts-erase :
    (t : Token) (s k : String) (d : Dict Token)
    → NodupKeys d
    → discover_token_key t d ≡ some k
    → str_eq t.token s ≡ false
    → accepts s (erase k d) ≡ accepts s d
unfolding discover_token_key erase
accepts-erase t s k [] once e other = cc
accepts-erase t s k ((j, u) ∷ d) once e other = elim (Bool-cases (token_eq (loaded u) t)) [
  | inl same ↦
      let found : j ≡ k = ground arith in
      let differs : str_eq u.token s ≡ false = ground (
        arith,
        token_eq_parts u t same,
        eq_iff u.token t.token,
        eq_iff u.token s,
        eq_iff t.token s,
      ) in
      let gone : erase k d ≡ d = erase_absent k d (rw found at once.0) in
      rw ((eq_iff j k).1 found) (rw gone (rw differs))
  | inr differ ↦
      let later : discover_token_key t d ≡ some k = ground arith in
      let apart : str_eq j k ≡ false =
        ground (arith, eq_iff j k, discover_token_key-lookup t k d later, once.0) in
      rw apart (ap (λ b. str_eq u.token s || b) (accepts-erase t s k d once.1 later other))
]

find-device_name :
    (name : String) (t : Token) (ts : List Token)
    → find (λ u. str_eq u.device_name name) ts ≡ some t
    → str_eq t.device_name name ≡ true
find-device_name name t [] e = cc
find-device_name name t (u ∷ ts) e = ground (arith, find-device_name name t ts)

-- Where no Redis key stands twice and the caller's token is valid, a call of `delete_api_token`
-- leaves that token valid, whatever device it names.
pub delete_api_token_keeps_caller :
    (caller name : String) (r : Repo)
    → NodupKeys r.tokens
    → is_token_valid caller r ≡ true
    → is_token_valid caller (delete_api_token caller name r).1 ≡ true
unfolding delete_api_token is_token_valid get_token_by_name delete_token is_token_name_pair_valid
delete_api_token_keeps_caller caller name r once v =
    elim (Bool-cases (is_token_name_exists name r)) [
      | inr unknown ↦ elim (Bool-cases (is_token_name_pair_valid name caller r)) [
        | inl own ↦ simp own v
        | inr other ↦ simp (other, unknown) v
      ]
      | inl known ↦ elim (Option-cases (find (λ u. str_eq u.device_name name) (get_tokens r))) [
        | inl e ↦ simp (is_token_name_pair_valid, e, known, or_raise) v
        | inr (t, e) ↦ elim (Bool-cases (str_eq t.token caller)) [
          | inl own ↦ simp (is_token_name_pair_valid, e, own) v
          | inr other ↦ elim (Option-cases (discover_token_key t r.tokens)) [
            | inl lost ↦ simp (is_token_name_pair_valid, e, other, known, or_raise, lost) v
            | inr (k, at_key) ↦
                simp (is_token_name_pair_valid, e, other, known, or_raise, at_key)
                  (accepts-erase t caller k r.tokens once at_key other ∙ v)
          ]
        ]
      ]
    ]
