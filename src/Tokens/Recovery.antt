-- ===== src/Tokens/Recovery.antt =====
-- The recovery key over a run of attempts, and the way from a new key to a new device.
use selfprivacy_api.Base.{
  [], ◌∷◌, if◌then◌else◌, ◌∷◌, List, ◌≤◌, ℕ, zero, suc, String, ◌≡◌, refl, inl, inr, Bool, true,
  false, Option, some, arith, str_eq, Bool-cases, Option-cases, Result, ok, err, pure, ◌>>=◌, ◌>>◌,
}
use selfprivacy_api.Base.Int.{pos}
use selfprivacy_api.Tokens.Models.{Env, Token, RecoveryKey, recovery_key_is_valid, TokenError}
use selfprivacy_api.Tokens.Names.{make_unique_device_name}
use selfprivacy_api.Tokens.Repo.{
  Repo, get_tokens, or_raise, create_token, is_recovery_key_valid, decrement_recovery_token,
  use_mnemonic_recovery_key,
}

abbrev pub succeeded : {A : Type 0} → Result TokenError A → Bool
succeeded (ok _) = true
succeeded (err _) = false

pub create_token-recovery_key :
    (env : Env) (name : String) (r : Repo)
    → (create_token env name r).1.recovery_key ≡ r.recovery_key
unfolding create_token
create_token-recovery_key env name r =
    elim (Option-cases (make_unique_device_name env.digits (get_tokens r) name)) [
      | inl e ↦ rw (e, or_raise)
      | inr (n, e) ↦ rw (e, or_raise)
    ]

-- The result and the recovery key after one attempt at a key with a use count.
abbrev Counted : ℕ → Bool → RecoveryKey → Option RecoveryKey → Type 0
Counted n true k after =
    (m : ℕ) × (n ≡ suc m) × (after ≡ some (record k { uses_left = some (pos m) }))
Counted n false k after = after ≡ some k

decrement-Counted :
    (now : ℕ) (r : Repo) (k : RecoveryKey) (n : ℕ)
    → r.recovery_key ≡ some k
    → k.uses_left ≡ some (pos n)
    → recovery_key_is_valid now k ≡ true
    → Counted n true k (decrement_recovery_token now r).1.recovery_key
unfolding decrement_recovery_token recovery_key_is_valid
decrement-Counted now r k zero e u v = ground arith
decrement-Counted now r k (suc m) e u v = (m, refl, ground arith)

-- What is left of an attempt once its phrase is accepted.
finish-Counted :
    (now : ℕ) (k : RecoveryKey) (n : ℕ) (result : Result TokenError Token) (r : Repo)
    → r.recovery_key ≡ some k
    → k.uses_left ≡ some (pos n)
    → recovery_key_is_valid now k ≡ true
    → let (result', r') =
        ((λ (_ : Repo). (result, r)) >>= λ t. decrement_recovery_token now >> pure t) r in
      Counted n (succeeded result') k r'.recovery_key
unfolding decrement_recovery_token
finish-Counted now k n (ok t) r e u v = decrement-Counted now r k n e u v
finish-Counted now k n (err _) r e u v = e

-- An attempt that succeeds takes one use; one that fails leaves the recovery key alone.
pub use_mnemonic_recovery_key-Counted :
    (env : Env) (phrase name : String) (r : Repo) (k : RecoveryKey) (n : ℕ)
    → r.recovery_key ≡ some k
    → k.uses_left ≡ some (pos n)
    → let (result, r') = use_mnemonic_recovery_key env phrase name r in
      Counted n (succeeded result) k r'.recovery_key
unfolding use_mnemonic_recovery_key
use_mnemonic_recovery_key-Counted env phrase name r k n e u =
    elim (Bool-cases (recovery_key_is_valid env.now k)) [
      | inr v ↦ simp (e, v, is_recovery_key_valid)
      | inl v ↦ elim (Bool-cases (env.check phrase)) [
        | inr c ↦ simp (e, v, c, is_recovery_key_valid, or_raise)
        | inl c ↦ elim (Bool-cases (str_eq (env.to_entropy phrase) k.key)) [
          | inr s ↦ simp (e, v, c, s, is_recovery_key_valid, or_raise)
          | inl s ↦
              simp (e, v, c, s, is_recovery_key_valid, or_raise)
                (finish-Counted env.now k n (create_token env name r).0 (create_token env name r).1
                  (rw create_token-recovery_key e) u v)
        ]
      ]
    ]

pub record Attempt : Type 0 where
  pub env : Env
  pub phrase : String
  pub name : String

-- How many of a run of attempts succeed, each on the repository that the last one left.
unfoldable pub successes : List Attempt → Repo → ℕ
successes [] r = 0
successes (a ∷ rest) r =
    let (result, r') = use_mnemonic_recovery_key a.env a.phrase a.name r in
    let more = successes rest r' in if succeeded result then suc more else more

Counted-bound :
    (n : ℕ) (b : Bool) (k : RecoveryKey) (after : Option RecoveryKey) (more : ℕ)
    → Counted n b k after
    → k.uses_left ≡ some (pos n)
    → ((k' : RecoveryKey) (m : ℕ) → after ≡ some k' → k'.uses_left ≡ some (pos m) → more ≤ m)
    → (if b then suc more else more) ≤ n
Counted-bound n true k after more (m, e, a) u ih = omega (arith, ih _ m a refl)
Counted-bound n false k after more a u ih = ih k n a u

-- However many attempts are made, with whatever phrases and at whatever times, a recovery key
-- with `n` uses left lets at most `n` of them through.
pub successes-le :
    (attempts : List Attempt) (r : Repo) (k : RecoveryKey) (n : ℕ)
    → r.recovery_key ≡ some k
    → k.uses_left ≡ some (pos n)
    → successes attempts r ≤ n
unfolding successes
successes-le [] r k n e u = omega arith
successes-le (a ∷ rest) r k n e u =
    let (result, r') = use_mnemonic_recovery_key a.env a.phrase a.name r in
    Counted-bound n (succeeded result) k r'.recovery_key (successes rest r')
      (use_mnemonic_recovery_key-Counted a.env a.phrase a.name r k n e u) u
      (λ k' m. successes-le rest r' k' m)
