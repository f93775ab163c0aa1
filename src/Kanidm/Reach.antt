-- ===== src/Kanidm/Reach.antt =====
-- The end of the loop in `_send_query`, which its comment calls unreachable.
use selfprivacy_api.Base.{
  refl, ℕ, String, ◌≡◌, ◌≢◌, inl, inr, Bool, true, false, not, Option, none, some, List, [], ◌∷◌,
  str_eq, ◌==◌, if◌then◌else◌, Bool-cases, Option-cases, Result-cases, sym, ap, ◌∙◌, bind-ok,
  bind-err, Result, ok, err, pure, raise_if, modify, ◌>>=◌, ◌>>◌, arith,
}
use selfprivacy_api.Kanidm.Server.{
  Json, null, text, entries, object, scalar, Method, get_method, Payload, no_data, Answer, reply,
  no_json, no_response, other_failure, Recovered, run_failed, not_json, output, KanidmError,
  unreachable_code, kanidm_cli_subprocess_error, Kanidm, World, Call, on_remote,
}
use selfprivacy_api.Kanidm.Token.{
  set_token, non_empty, last_line, password_of, token_of, probe_result, lift_result,
  get_admin_token_from_env, reset_and_save_idm_admin_password, create_and_save_token,
  is_token_valid, delete_kanidm_token_from_db, regenerate, adopt_or_regenerate, get_token,
}
use selfprivacy_api.Kanidm.Query.{
  Outcome, answered, failed, refused, raise_for_error_response, outcome, try_attempts, send_query,
  handle,
}
use selfprivacy_api.Kanidm.Retry.{outcome_last}

-- The result is not the error of the end of the loop.
abbrev Other : {A : Type 0} → Result KanidmError A → Type 0
Other r = r ≢ err unreachable_code

abbrev error_of : {A : Type 0} → Result KanidmError A → KanidmError
error_of (ok _) = unreachable_code
error_of (err x) = x

password_of-Other : (r : Recovered) → Other (password_of r)
password_of-Other run_failed e = cc
password_of-Other not_json e = cc
password_of-Other (output o) e = elim (Option-cases (non_empty o)) [ inl h ↦ cc | inr (p, h) ↦ cc ]

token_of-Other : (o : Option (List String)) → Other (token_of o)
token_of-Other none e = cc
token_of-Other (some ls) e = elim (Option-cases (last_line ls)) [ inl h ↦ cc | inr (p, h) ↦ cc ]

probe_result-Other : (a : Answer) → Other (probe_result a)
probe_result-Other (reply status data_) e = cc
probe_result-Other (no_json status) e = cc
probe_result-Other no_response e = cc
probe_result-Other other_failure e = cc

-- What fails an attempt is another error.
raise_for_error_response-ne : (j : Json) → raise_for_error_response j ≢ unreachable_code
unfolding raise_for_error_response
raise_for_error_response-ne null e = cc
raise_for_error_response-ne scalar e = cc
raise_for_error_response-ne (entries es) e = cc
raise_for_error_response-ne (text s) e = ground arith
raise_for_error_response-ne (object o) e = ground arith

failure-ne :
    (b : Bool) (a : Answer) (x : KanidmError) → outcome b a ≡ failed x → x ≢ unreachable_code
unfolding outcome
failure-ne b (no_json status) x h e = cc
failure-ne b no_response x h e = cc
failure-ne b other_failure x h e = cc
failure-ne b (reply status data_) x h e = ground (arith, raise_for_error_response-ne data_)

module _ {R : Type 0} where
  -- The call never ends with that error.
  abbrev Reaches : {A : Type 0} → Call R A → Type 0
  Reaches m = (w : World R) → Other (m w).0

  bind-Reaches :
      {A B : Type 0} (f : A → Call R B)
      → ((a : A) → Reaches (f a))
      → (m : Call R A) → Reaches m
      → Reaches (m >>= f)
  bind-Reaches {A = A} {B = B} f rest m h w e =
      let result : Result KanidmError B × World R → Result KanidmError B = λ p. p.0 in
      elim (Result-cases (m w).0) [
        | inl (a, returned) ↦ rest a (m w).1 (
            sym (ap result (bind-ok m f (ap (λ (r : Result KanidmError A). (r, (m w).1)) returned)))
            ∙ e)
        | inr (x, raised) ↦ h w (
            raised
            ∙ ap err (
                ap (λ (p : Result KanidmError B × World R). error_of p.0)
                  (sym (bind-err m f (ap (λ (r : Result KanidmError A). (r, (m w).1)) raised)))
                ∙ ap error_of e))
      ]

  pure-Reaches : {A : Type 0} (a : A) → Reaches (pure a)
  pure-Reaches a w e = cc

  on_remote-Reaches : {A : Type 0} (f : R → A × R) → Reaches (on_remote f)
  on_remote-Reaches f w e = cc

  is_token_valid-Reaches : (k : Kanidm R) (t : String) → Reaches (is_token_valid k t)
  unfolding is_token_valid
  is_token_valid-Reaches k t =
      let read : Answer → Call R Bool = λ a. lift_result (probe_result a) in
      bind-Reaches read (λ a w. probe_result-Other a)
        (on_remote (k.request get_method "person/root" no_data t))
        (on_remote-Reaches (k.request get_method "person/root" no_data t))

  raise_if-Reaches : (c : Bool) → Reaches (raise_if c kanidm_cli_subprocess_error)
  raise_if-Reaches true w e = cc
  raise_if-Reaches false w e = cc

  create_and_save_token-Reaches : (k : Kanidm R) (p : String) → Reaches (create_and_save_token k p)
  unfolding create_and_save_token
  create_and_save_token-Reaches k p =
      let store : String → Call R String = λ t. modify (set_token (some t)) >> pure t in
      let parse : Option (List String) → Call R String =
        λ ls. lift_result (token_of ls) >>= store in
      let generate : Unit {0} → Call R String = λ _. on_remote k.generate_token >>= parse in
      let check : Bool → Call R String =
        λ b. raise_if (not b) kanidm_cli_subprocess_error >>= generate in
      bind-Reaches check
        (λ b.
          bind-Reaches generate
            (λ _.
              bind-Reaches parse
                (λ ls.
                  bind-Reaches store (λ t w e. cc) (lift_result (token_of ls))
                    (λ w. token_of-Other ls))
                (on_remote k.generate_token) (on_remote-Reaches k.generate_token))
            (raise_if (not b) kanidm_cli_subprocess_error) (raise_if-Reaches (not b)))
        (on_remote (k.login p)) (on_remote-Reaches (k.login p))

  regenerate-Reaches : (k : Kanidm R) → Reaches (regenerate k)
  unfolding regenerate reset_and_save_idm_admin_password
  regenerate-Reaches k =
      let take : Recovered → Call R String = λ r. lift_result (password_of r) in
      bind-Reaches (create_and_save_token k) (create_and_save_token-Reaches k)
        (reset_and_save_idm_admin_password k)
        (bind-Reaches take (λ r w. password_of-Other r) (on_remote k.recover_account)
          (on_remote-Reaches k.recover_account))

  adopt_or_regenerate-Reaches :
      (k : Kanidm R) (candidate rejected : String)
      → Reaches (adopt_or_regenerate k candidate rejected)
  adopt_or_regenerate-Reaches k candidate rejected w =
      let adopt : Bool → Call R String = λ b. if b then pure candidate else regenerate k in
      elim (Bool-cases (str_eq candidate rejected)) [
        | inl same ↦ rw same (regenerate-Reaches k w)
        | inr unlike ↦ rw unlike (
            bind-Reaches adopt
              (λ b. elim b as (λ c. Reaches (adopt c)) [
                | true ↦ pure-Reaches candidate
                | false ↦ regenerate-Reaches k
              ])
              (is_token_valid k candidate) (is_token_valid-Reaches k candidate) w)
      ]

  get_admin_token_from_env-Reaches : (k : Kanidm R) → Reaches (get_admin_token_from_env k)
  unfolding get_admin_token_from_env
  get_admin_token_from_env-Reaches k w = elim (Option-cases (non_empty k.token_file)) [
    | inl missing ↦ rw (missing, get_admin_token_from_env) (λ e. cc)
    | inr (t, found) ↦ rw (found, get_admin_token_from_env) (λ e. cc)
  ]

  get_token-Reaches : (k : Kanidm R) (rejected : Option String) → Reaches (get_token k rejected)
  unfolding get_token
  get_token-Reaches k none w = elim (Option-cases (non_empty w.redis_token)) [
    | inl missing ↦
        let go : Option String → Call R String =
          λ o. elim o [ none ↦ regenerate k | some t ↦ pure t ] in
        rw (missing, get_token)
          (bind-Reaches go
            (λ o. elim o as (λ o'. Reaches (go o')) [
              | none ↦ regenerate-Reaches k
              | some t ↦ pure-Reaches t
            ])
            (get_admin_token_from_env k) (get_admin_token_from_env-Reaches k) w)
    | inr (t, found) ↦ rw (found, get_token) (λ e. cc)
  ]
  get_token-Reaches k (some old) w =
      let go : Option String → Call R String =
        λ o. elim o [ none ↦ regenerate k | some t ↦ adopt_or_regenerate k t old ] in
      bind-Reaches go
        (λ o. elim o as (λ o'. Reaches (go o')) [
          | none ↦ regenerate-Reaches k
          | some t ↦ adopt_or_regenerate-Reaches k t old
        ])
        (get_admin_token_from_env k) (get_admin_token_from_env-Reaches k) w

  handle-Reaches :
      (o : Outcome) (retry : Call R Json)
      → ((x : KanidmError) → o ≡ failed x → x ≢ unreachable_code)
      → (o ≡ refused → Reaches retry)
      → Reaches (handle o retry)
  unfolding handle delete_kanidm_token_from_db
  handle-Reaches (answered j) retry bad next w e = cc
  handle-Reaches (failed x) retry bad next w e = bad x refl (ap error_of e)
  handle-Reaches refused retry bad next w e =
      bind-Reaches (λ _. retry) (λ _. next refl) delete_kanidm_token_from_db (λ w' e'. cc) w e

  -- An attempt ends well if the next one does where there is one.
  attempt-Reaches :
      (k : Kanidm R) (method : Method) (endpoint : String) (payload : Payload) (attempt : ℕ)
      (attempts : List ℕ) (rejected : Option String)
      → ((answer : Answer)
          → outcome (attempt == 1) answer ≡ refused
          → (t : String) → Reaches (try_attempts k method endpoint payload attempts (some t)))
      → Reaches (try_attempts k method endpoint payload (attempt ∷ attempts) rejected)
  unfolding try_attempts
  attempt-Reaches k method endpoint payload attempt attempts rejected next =
      let finish : String → Answer → Call R Json = λ t a.
        handle (outcome (attempt == 1) a)
          (try_attempts k method endpoint payload attempts (some t)) in
      let ask : String → Call R Json =
        λ t. on_remote (k.request method endpoint payload t) >>= finish t in
      bind-Reaches ask
        (λ t.
          bind-Reaches (finish t)
            (λ a. handle-Reaches _ _ (failure-ne (attempt == 1) a) (λ again. next a again t))
            (on_remote (k.request method endpoint payload t))
            (on_remote-Reaches (k.request method endpoint payload t)))
        (get_token k rejected) (get_token-Reaches k rejected)

  -- A query never ends with the error after the loop: the second attempt always answers or raises
  -- another error.
  pub send_query-Reaches :
      (k : Kanidm R) (method : Method) (endpoint : String) (payload : Payload) (w : World R)
      → (send_query k method endpoint payload w).0 ≢ err unreachable_code
  unfolding send_query
  send_query-Reaches k method endpoint payload =
      attempt-Reaches k method endpoint payload 1 (2 ∷ []) none λ _ _ t.
        attempt-Reaches k method endpoint payload 2 [] (some t)
          λ answer again. absurd (outcome_last answer again)
