-- ===== src/Kanidm/Server.antt =====
-- What the repository of Kanidm users sees from outside: the HTTP server, the `kanidm` and
-- `kanidmd` programs and the token file. They act on a remote state of any type.
use selfprivacy_api.Base.{ℕ, String, Bool, Option, List, Dict, Action, ok}

-- A JSON object as far as the code reads it: `attrs`, `token`, and whether there is the key
-- `conflicting_attributes`.
pub record Entry : Type 0 where
  pub attrs : Option (Dict (List String))
  pub token : Option String
  pub conflicting : Bool

-- `scalar` is a number or a Boolean.
pub data Json : Type 0 where
  null : Json
  text : String → Json
  entries : List Entry → Json
  object : Entry → Json
  scalar : Json

pub data Method : Type 0 where
  get_method post_method patch_method delete_method : Method

pub data Payload : Type 0 where
  no_data : Payload
  attributes : Dict (List String) → Payload
  members : List String → Payload

-- What a request comes to: a status with a JSON body or another body, an `httpx.RequestError`, or
-- another exception.
pub data Answer : Type 0 where
  reply : ℕ → Json → Answer
  no_json : ℕ → Answer
  no_response : Answer
  other_failure : Answer

-- The output of `kanidmd scripting recover-account`: a failed run, no JSON, or the JSON's `output`
-- where that is a text.
pub data Recovered : Type 0 where
  run_failed : Recovered
  not_json : Recovered
  output : Option String → Recovered

-- `raw_error` is an exception of Python that the code does not catch.
pub data KanidmError : Type 0 where
  query_error : (description : String) → KanidmError
  user_already_exists user_not_found user_or_group_not_found : KanidmError
  failed_to_get_valid_kanidm_token kanidm_cli_subprocess_error : KanidmError
  kanidm_did_not_return_admin_password : KanidmError
  kanidm_return_empty_response kanidm_return_unknown_response_type : KanidmError
  no_password_reset_link_found_in_response : KanidmError
  unreachable_code raw_error : KanidmError

-- `token_file` is the stripped text of the file, if the variable is set and the file is read.
-- `generate_token` is the lines that `kanidm service-account api-token generate` prints, if it
-- ends well.
pub record Kanidm (R : Type 0) : Type 0 where
  pub domain : String
  pub token_file : Option String
  pub request : Method → (endpoint : String) → Payload → (token : String) → R → Answer × R
  pub recover_account : R → Recovered × R
  pub login : (password : String) → R → Bool × R
  pub generate_token : R → Option (List String) × R

-- The Redis key `kanidm:token`, and the remote.
pub record World (R : Type 0) : Type 0 where
  pub redis_token : Option String
  pub remote : R

abbrev pub Call : Type 0 → Type 0 → Type 0
Call R A = Action (World R) KanidmError A

-- A call on the remote alone.
abbrev pub on_remote : {R A : Type 0} → (R → A × R) → Call R A
on_remote f w = let (a, r) = f w.remote in (ok a, record w { remote = r })
