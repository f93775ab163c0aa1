-- ===== src/Kanidm/Query.antt =====
-- `KanidmUserRepository._send_query`: a request, made once more with another token if the first
-- was refused.
use selfprivacy_api.Base.{
  ℕ, String, Bool, false, ◌&&◌, Option, none, some, List, [], ◌∷◌, str_eq, ◌==◌, if◌then◌else◌,
  pure, raise, ◌>>=◌, ◌>>◌,
}
use selfprivacy_api.Kanidm.Server.{
  Json, text, object, Method, Payload, Answer, reply, no_json, no_response, other_failure,
  KanidmError, query_error, user_already_exists, user_or_group_not_found,
  failed_to_get_valid_kanidm_token, unreachable_code, Kanidm, Call, on_remote,
}
use selfprivacy_api.Kanidm.Token.{get_token, delete_kanidm_token_from_db}

-- `_raise_for_error_response`
unfoldable pub raise_for_error_response : Json → KanidmError
raise_for_error_response (object e) = if e.conflicting then user_already_exists else query_error ""
raise_for_error_response (text s) =
    if str_eq s "nomatchingentries"
    then user_or_group_not_found
    else if str_eq s "accessdenied"
    then query_error "Kanidm access issue"
    else if str_eq s "notauthenticated"
    then failed_to_get_valid_kanidm_token
    else query_error ""
raise_for_error_response _ = query_error ""

pub data Outcome : Type 0 where
  answered : Json → Outcome
  failed : KanidmError → Outcome
  refused : Outcome

-- `response_data == "notauthenticated"`
abbrev pub is_refusal : Json → Bool
is_refusal (text s) = str_eq s "notauthenticated"
is_refusal _ = false

-- What one attempt does with the answer.
unfoldable pub outcome : (is_first : Bool) → Answer → Outcome
unfolding raise_for_error_response
outcome is_first (no_json _) = failed (query_error "No JSON found in Kanidm response.")
outcome is_first no_response = failed (query_error "Kanidm is not responding to requests.")
outcome is_first other_failure = failed (query_error "")
outcome is_first (reply status data_) =
    if status == 200
    then answered data_
    else if is_first && is_refusal data_
    then refused
    else failed (raise_for_error_response data_)

module _ {R : Type 0} where
  -- The end of an attempt; `retry` is the next one.
  unfoldable pub handle : Outcome → (retry : Call R Json) → Call R Json
  unfolding delete_kanidm_token_from_db
  handle (answered data_) retry = pure data_
  handle (failed e) retry = raise e
  handle refused retry = delete_kanidm_token_from_db >> retry

  -- The loop over the attempts.
  unfoldable pub try_attempts :
      Kanidm R
      → Method
      → String
      → Payload
      → (attempts : List ℕ) → (rejected_token : Option String) → Call R Json
  unfolding outcome handle get_token
  try_attempts k method endpoint payload [] rejected = raise unreachable_code
  try_attempts k method endpoint payload (attempt ∷ attempts) rejected = do
    token ← get_token k rejected
    answer ← on_remote (k.request method endpoint payload token)
    handle (outcome (attempt == 1) answer)
        (try_attempts k method endpoint payload attempts (some token))

  unfoldable pub send_query : Kanidm R → Method → String → Payload → Call R Json
  unfolding try_attempts
  send_query k method endpoint payload = try_attempts k method endpoint payload (1 ∷ 2 ∷ []) none
