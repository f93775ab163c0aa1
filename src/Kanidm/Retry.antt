-- ===== src/Kanidm/Retry.antt =====
-- The retry of `_send_query`, and which tokens it uses.
use selfprivacy_api.Base.{
  pure, ◌>>=◌, bind-ok, ℕ, String, ◌≡◌, refl, ap, ◌∙◌, ◌≢◌, Bool, true, false, Option, none, some,
  List, [], ◌∷◌, arith, str_eq, ◌==◌, if◌then◌else◌, ok,
}
use selfprivacy_api.Kanidm.Server.{
  Json, text, Method, get_method, Payload, no_data, Answer, reply, no_json, no_response,
  other_failure, Kanidm, World, on_remote,
}
use selfprivacy_api.Kanidm.Token.{
  set_token, non_empty, probe_result, lift_result, get_admin_token_from_env, is_token_valid,
  regenerate, adopt_or_regenerate, get_token,
}
use selfprivacy_api.Kanidm.Query.{refused, outcome, try_attempts, send_query, handle}

-- After the first attempt no answer is taken for a refusal.
pub outcome_last : (answer : Answer) → outcome false answer ≢ refused
unfolding outcome
outcome_last (reply status data_) e = ground arith
outcome_last (no_json status) e = cc
outcome_last no_response e = cc
outcome_last other_failure e = cc

outcome_first :
    (status : ℕ)
    → (status == 200) ≡ false
    → outcome true (reply status (text "notauthenticated")) ≡ refused
unfolding outcome
outcome_first status bad = simp bad

module _ {R : Type 0} where
  get_token-cached :
      (k : Kanidm R) (w : World R) (t : String)
      → non_empty w.redis_token ≡ some t
      → get_token k none w ≡ (ok t, w)
  unfolding get_token
  get_token-cached k w t cached = rw (cached, get_token) refl

  on_remote-ok :
      {A : Type 0} (f : R → A × R) {w : World R} {a : A} {r : R}
      → f w.remote ≡ (a, r)
      → on_remote f w ≡ (ok a, record w { remote = r })
  on_remote-ok {A = A} f {w} e = ap (λ (p : A × R). (ok p.0, record w { remote = p.1 })) e

  is_token_valid-ok :
      (k : Kanidm R) (token : String) (w : World R) (probed : Json) (r : R)
      → k.request get_method "person/root" no_data token w.remote ≡ (reply 200 probed, r)
      → is_token_valid k token w ≡ (ok true, record w { remote = r })
  unfolding is_token_valid
  is_token_valid-ok k token w probed r probe =
      bind-ok (on_remote (k.request get_method "person/root" no_data token))
        (λ answer. lift_result (probe_result answer))
        (on_remote-ok (k.request get_method "person/root" no_data token) {w = w} probe)

  get_admin_token_from_env-file :
      (k : Kanidm R) (w : World R) (t : String)
      → non_empty k.token_file ≡ some t
      → get_admin_token_from_env k w ≡ (ok (some t), record w { redis_token = some t })
  unfolding get_admin_token_from_env
  get_admin_token_from_env-file k w t file = rw (file, get_admin_token_from_env) refl

  get_token-rotated :
      (k : Kanidm R) (w : World R) (old new : String) (probed : Json) (r : R)
      → non_empty k.token_file ≡ some new
      → str_eq new old ≡ false
      → k.request get_method "person/root" no_data new w.remote ≡ (reply 200 probed, r)
      → get_token k (some old) w ≡ (ok new, record { redis_token = some new; remote = r })
  unfolding get_token
  get_token-rotated k w old new probed r file differs probe =
      let stored = set_token (some new) w in
      let adopt = λ (valid : Bool). if valid then pure new else regenerate k in
      bind-ok (get_admin_token_from_env k)
        (λ o. elim o [ none ↦ regenerate k | some t ↦ adopt_or_regenerate k t old ])
        (get_admin_token_from_env-file k w new file)
      ∙ ap (λ b. (if b then regenerate k else (is_token_valid k new >>= adopt)) stored) differs
      ∙ bind-ok (is_token_valid k new) adopt (is_token_valid-ok k new stored probed r probe)

  try_attempts-step :
      (k : Kanidm R) (method : Method) (endpoint : String) (payload : Payload) (attempt : ℕ)
      (attempts : List ℕ) (rejected : Option String) (w w1 : World R) (token : String)
      (answer : Answer) (r : R)
      → get_token k rejected w ≡ (ok token, w1)
      → k.request method endpoint payload token w1.remote ≡ (answer, r)
      → try_attempts k method endpoint payload (attempt ∷ attempts) rejected w
        ≡ handle
            (outcome (attempt == 1) answer)
            (try_attempts k method endpoint payload attempts (some token))
            (record w1 { remote = r })
  unfolding try_attempts
  try_attempts-step k method endpoint payload attempt attempts rejected w w1 token answer r got
        asked =
      let ask = λ (t : String). on_remote (k.request method endpoint payload t) in
      let go = λ (t : String) (a : Answer).
        handle (outcome (attempt == 1) a)
          (try_attempts k method endpoint payload attempts (some t)) in
      bind-ok (get_token k rejected) (λ t. ask t >>= go t) got
      ∙ bind-ok (ask token) (go token)
          (on_remote-ok (k.request method endpoint payload token) {w = w1} asked)

  -- When the cached token is refused and the token file has another one that Kanidm accepts, the
  -- query is made again with that token, returns its answer, and leaves that token in Redis.
  pub rotated_token_recovers :
      (k : Kanidm R) (method : Method) (endpoint : String) (payload : Payload) (w : World R)
      (old new : String) (status : ℕ) (probed data_ : Json) (r1 r2 r3 : R)
      → non_empty w.redis_token ≡ some old
      → non_empty k.token_file ≡ some new
      → str_eq new old ≡ false
      → (status == 200) ≡ false
      → k.request method endpoint payload old w.remote
        ≡ (reply status (text "notauthenticated"), r1)
      → k.request get_method "person/root" no_data new r1 ≡ (reply 200 probed, r2)
      → k.request method endpoint payload new r2 ≡ (reply 200 data_, r3)
      → send_query k method endpoint payload w
        ≡ (ok data_, record { redis_token = some new; remote = r3 })
  unfolding send_query
  rotated_token_recovers k method endpoint payload w old new status probed data_ r1 r2 r3 cached
        file differs bad first probe second =
      let retry = try_attempts k method endpoint payload (2 ∷ []) (some old) in
      try_attempts-step k method endpoint payload 1 (2 ∷ []) none w w old _ r1
        (get_token-cached k w old cached) first
      ∙ ap (λ o. handle o retry (record w { remote = r1 })) (outcome_first status bad)
      ∙ try_attempts-step k method endpoint payload 2 [] (some old) _ _ new _ r3
          (get_token-rotated k (record { redis_token = none; remote = r1 }) old new probed r2 file
            differs probe)
          second
