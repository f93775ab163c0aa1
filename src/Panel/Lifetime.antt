-- ===== src/Panel/Lifetime.antt =====
-- How long a session of the user panel lasts.
use selfprivacy_api.Base.{
  ℕ, ◌+◌, ◌*◌, ◌≤◌, ◌<◌, String, ◌≡◌, refl, sym, ap, ◌∙◌, inl, inr, true, not, Option, none, some,
  arith, leb, Bool-cases, lookup, erase, lookup-insert_self, lookup-erase_self, Result, ok, pure,
  gets, modify, raise_if, ◌>>=◌, ◌>>◌, bind-ok, bind-inv,
}
use selfprivacy_api.Panel.Session.{
  Session, SessionStore, SessionEnv, session_key, storage_missing, redis_get, redis_set,
  new_session, create_session, renewed, checked, check_item, validate_session_token,
  invalidate_session,
}

redis_get-redis_set :
    (now : ℕ) (x : Session) (s : SessionStore)
    → now < x.expires_at
    → redis_get now (session_key x.id) (redis_set x s) ≡ some x
unfolding redis_get redis_set
redis_get-redis_set now x s live =
    let stored =
      lookup-insert_self (session_key x.id) (record { session = x; exat = x.expires_at }) s in
    rw (stored, redis_get) (ground arith)

redis_get-erased :
    (now : ℕ) (key : String) (s s' : SessionStore) → erase key s ≡ s' → redis_get now key s' ≡ none
unfolding redis_get
redis_get-erased now key s s' gone =
    let missing = ap (lookup key) (sym gone) ∙ lookup-erase_self key s in
    rw (missing, redis_get) refl

module _ (sha256 : String → String) where
  validate_session_token-item :
      (env : SessionEnv) (token : String) (s : SessionStore) (item : Option Session)
      → env.connected ≡ true
      → redis_get (env.clock 0) (session_key (sha256 token)) s ≡ item
      → validate_session_token sha256 env token s ≡ check_item sha256 env (sha256 token) item s
  unfolding validate_session_token
  validate_session_token-item env token s item up read =
      bind-ok (raise_if (not env.connected) storage_missing)
        (λ _.
          gets (redis_get (env.clock 0) (session_key (sha256 token)))
          >>= check_item sha256 env (sha256 token))
        {s = s} (ap (λ c. raise_if (not c) storage_missing s) up)
      ∙ ap (λ i. check_item sha256 env (sha256 token) i s) read

  -- A live session is let through, and has more than half an hour left after it.
  checked-live :
      (env : SessionEnv) (id : String) (x : Session) (s : SessionStore)
      → env.clock 1 < x.expires_at
      → env.clock 2 ≤ env.clock 3
      → (y : Session) × ((checked sha256 env id x s).0 ≡ ok (some y))
        × (y.user_id ≡ x.user_id)
        × (env.clock 2 + 30 * 60 < y.expires_at)
  unfolding checked
  checked-live env id x s live later =
      elim (Bool-cases (leb x.expires_at (env.clock 2 + 30 * 60))) [
        | inl near ↦ (renewed sha256 env x, ground arith, refl, omega arith)
        | inr far ↦ (x, ground arith, refl, ground arith)
      ]

  -- While Redis is there and the clock does not go back between its last two readings, the token
  -- of a session that was made less than an hour ago is let through with the user of the session,
  -- and the session then has more than half an hour left.
  pub created_session_is_valid :
      (made used : SessionEnv) (token user_id : String) (s : SessionStore)
      → made.connected ≡ true
      → used.connected ≡ true
      → used.clock 0 < made.clock 0 + 3600
      → used.clock 1 < made.clock 0 + 3600
      → used.clock 2 ≤ used.clock 3
      → (y : Session) × ((validate_session_token sha256 used token
            (create_session sha256 made token user_id s).1).0
          ≡ ok (some y))
        × (y.user_id ≡ user_id)
        × (used.clock 2 + 30 * 60 < y.expires_at)
  unfolding create_session
  created_session_is_valid made used token user_id s up up' kept live later =
      let x = new_session sha256 made token user_id in
      let s1 = redis_set x s in
      let stored : create_session sha256 made token user_id s ≡ (ok x, s1) =
        bind-ok (raise_if (not made.connected) storage_missing)
          (λ _. modify (redis_set x) >> pure x) {s = s}
          (ap (λ c. raise_if (not c) storage_missing s) up) in
      let (y, passed, same, left) = checked-live used (sha256 token) x s1 live later in
      (
        y,
        ap
              (λ (q : Result String Session × SessionStore).
                (validate_session_token sha256 used token q.1).0)
              stored
            ∙ ap (λ (q : Result String (Option Session) × SessionStore). q.0)
                (validate_session_token-item used token s1 (some x) up'
                  (redis_get-redis_set (used.clock 0) x s kept))
            ∙ passed,
        same,
        left,
      )

  -- While Redis is there, the token of an invalidated session is let through at no time.
  pub invalidated_session_is_refused :
      (out used : SessionEnv) (token : String) (s s' : SessionStore)
      → used.connected ≡ true
      → invalidate_session sha256 out (sha256 token) s ≡ (ok tt, s')
      → validate_session_token sha256 used token s' ≡ (ok none, s')
  unfolding invalidate_session
  invalidated_session_is_refused out used token s s' up gone =
      let key = session_key (sha256 token) in
      let (u, s1, first, second) =
        bind-inv (raise_if (not out.connected) storage_missing) (λ _. modify (erase key)) gone in
      validate_session_token-item used token s' none up (
        redis_get-erased (used.clock 0) key s1 s'
          (ap (λ (q : Result String (Unit {0}) × SessionStore). q.1) second))
