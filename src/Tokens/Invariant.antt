-- ===== src/Tokens/Invariant.antt =====
-- Every token hash stands at the key of its device name, and each key once: the operations keep
-- it, and change no other entry.
use selfprivacy_api.Base.{
  String, ◌≡◌, refl, true, some, [], ◌∷◌, str_eq, Dict, insert, erase, NodupKeys, insert-NodupKeys,
  erase-NodupKeys, arith, eq_iff, Option-cases, inl, inr, Bool-cases,
}
use selfprivacy_api.Tokens.Models.{Env, Token, token_eq}
use selfprivacy_api.Tokens.Names.{make_unique_device_name}
use selfprivacy_api.Tokens.Repo.{
  Repo, token_key_for_device, loaded, get_tokens, or_raise, discover_token_key, delete_token,
  create_token,
}

abbrev pub AllKeyed : Env → Dict Token → Type 0
AllKeyed env [] = Unit
AllKeyed env ((k, t) ∷ d) = (k ≡ token_key_for_device env t.device_name) × AllKeyed env d

pub record IsValid (env : Env) (r : Repo) : Type 0 where
  pub keyed : AllKeyed env r.tokens
  pub once : NodupKeys r.tokens

pub insert-AllKeyed :
    (env : Env) (t : Token) (d : Dict Token)
    → AllKeyed env d
    → AllKeyed env (insert (token_key_for_device env t.device_name) t d)
unfolding insert
insert-AllKeyed env t [] h = (refl, tt)
insert-AllKeyed env t ((k, u) ∷ d) h =
    elim (Bool-cases (str_eq k (token_key_for_device env t.device_name))) [
      | inl same ↦ rw same (refl, h.1)
      | inr other ↦ rw other (h.0, insert-AllKeyed env t d h.1)
    ]

pub erase-AllKeyed :
    (env : Env) (k : String) (d : Dict Token) → AllKeyed env d → AllKeyed env (erase k d)
unfolding erase
erase-AllKeyed env k [] h = tt
erase-AllKeyed env k ((j, u) ∷ d) h = ground (arith, erase-AllKeyed env k d h.1)

token_eq-device_name : (a b : Token) → token_eq (loaded a) b ≡ true → a.device_name ≡ b.device_name
unfolding token_eq
token_eq-device_name a b h =
    ground (arith, eq_iff a.token b.token, eq_iff a.device_name b.device_name)

-- The key that the search for a token finds is the key of its device.
pub discover_token_key_sound :
    (env : Env) (t : Token) (k : String) (d : Dict Token)
    → AllKeyed env d
    → discover_token_key t d ≡ some k
    → k ≡ token_key_for_device env t.device_name
unfolding discover_token_key
discover_token_key_sound env t k [] h e = cc
discover_token_key_sound env t k ((j, u) ∷ d) h e =
    ground (arith, discover_token_key_sound env t k d h.1, token_eq-device_name u t)

-- Creating a token keeps every token hash at the key of its device.
pub create_token-IsValid :
    (env : Env) (name : String) (r : Repo) → IsValid env r → IsValid env (create_token env name r).1
unfolding create_token
create_token-IsValid env name r v =
    elim (Option-cases (make_unique_device_name env.digits (get_tokens r) name)) [
      | inl e ↦ rw (e, or_raise) v
      | inr (n, e) ↦
          rw (e, or_raise)
            (record {
              keyed = insert-AllKeyed env _ r.tokens v.keyed;
              once = insert-NodupKeys _ _ r.tokens v.once;
            })
    ]

-- So does deleting one.
pub delete_token-IsValid :
    (env : Env) (t : Token) (r : Repo) → IsValid env r → IsValid env (delete_token t r).1
unfolding delete_token
delete_token-IsValid env t r v = elim (Option-cases (discover_token_key t r.tokens)) [
  | inl e ↦ rw (e, or_raise) v
  | inr (k, e) ↦
      rw (e, or_raise)
        (record {
          keyed = erase-AllKeyed env k r.tokens v.keyed;
          once = erase-NodupKeys k r.tokens v.once;
        })
]
