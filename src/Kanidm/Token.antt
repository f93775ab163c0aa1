-- ===== src/Kanidm/Token.antt =====
-- `KanidmAdminToken`: where the administrative token comes from.
use selfprivacy_api.Base.{
  String, Bool, false, not, Option, none, some, List, [], ◌∷◌, str_eq, ◌==◌, if◌then◌else◌, Result,
  ok, err, pure, modify, raise_if, ◌>>=◌, ◌>>◌,
}
use selfprivacy_api.Kanidm.Server.{
  get_method, no_data, Answer, reply, no_json, no_response, other_failure, Recovered, run_failed,
  not_json, output, KanidmError, kanidm_cli_subprocess_error, kanidm_did_not_return_admin_password,
  raw_error, Kanidm, World, Call, on_remote,
}

-- `if text:`
abbrev pub non_empty : Option String → Option String
non_empty none = none
non_empty (some s) = if str_eq s "" then none else some s

abbrev pub last_line : List String → Option String
last_line [] = none
last_line (x ∷ []) = some x
last_line (x ∷ y ∷ ys) = last_line (y ∷ ys)

-- The password that `recover-account` printed.
abbrev pub password_of : Recovered → Result KanidmError String
password_of run_failed = err raw_error
password_of not_json = err kanidm_did_not_return_admin_password
password_of (output o) = elim (non_empty o) [
  | none ↦ err kanidm_did_not_return_admin_password
  | some p ↦ ok p
]

-- The token that `api-token generate` printed; `[-1]` of no lines is an `IndexError`.
abbrev pub token_of : Option (List String) → Result KanidmError String
token_of none = err kanidm_cli_subprocess_error
token_of (some lines) = elim (last_line lines) [ none ↦ err raw_error | some t ↦ ok t ]

-- Whether the answer to the probe is a 200.
abbrev pub probe_result : Answer → Result KanidmError Bool
probe_result (reply status _) = ok (status == 200)
probe_result (no_json status) = ok (status == 200)
probe_result no_response = ok false
probe_result other_failure = err raw_error

module _ {R : Type 0} where
  abbrev pub lift_result : {A : Type 0} → Result KanidmError A → Call R A
  lift_result r w = (r, w)

  abbrev pub set_token : Option String → World R → World R
  set_token t w = record w { redis_token = t }

  -- A token of the file goes to Redis too.
  unfoldable pub get_admin_token_from_env : Kanidm R → Call R (Option String)
  get_admin_token_from_env k w = elim (non_empty k.token_file) [
    | none ↦ (ok none, w)
    | some t ↦ (ok (some t), set_token (some t) w)
  ]

  unfoldable pub reset_and_save_idm_admin_password : Kanidm R → Call R String
  reset_and_save_idm_admin_password k = do
    recovered ← on_remote k.recover_account
    lift_result (password_of recovered)

  unfoldable pub create_and_save_token : Kanidm R → String → Call R String
  create_and_save_token k password = do
    logged_in ← on_remote (k.login password)
    raise_if (not logged_in) kanidm_cli_subprocess_error
    lines ← on_remote k.generate_token
    token ← lift_result (token_of lines)
    modify (set_token (some token))
    pure token

  unfoldable pub is_token_valid : Kanidm R → String → Call R Bool
  is_token_valid k token = do
    answer ← on_remote (k.request get_method "person/root" no_data token)
    lift_result (probe_result answer)

  unfoldable pub delete_kanidm_token_from_db : Call R (Unit {0})
  delete_kanidm_token_from_db = modify (set_token none)

  -- The last resort of `get`.
  unfoldable pub regenerate : Kanidm R → Call R String
  unfolding reset_and_save_idm_admin_password create_and_save_token
  regenerate k = do password ← reset_and_save_idm_admin_password k; create_and_save_token k password

  -- A token of the file, after another was refused.
  abbrev pub adopt_or_regenerate : Kanidm R → (candidate rejected : String) → Call R String
  adopt_or_regenerate k candidate rejected =
      if str_eq candidate rejected
      then regenerate k
      else (do valid ← is_token_valid k candidate; if valid then pure candidate else regenerate k)

  unfoldable pub get_token : Kanidm R → (rejected_token : Option String) → Call R String
  unfolding get_admin_token_from_env regenerate is_token_valid
  get_token k none w = elim (non_empty w.redis_token) [
    | some t ↦ (ok t, w)
    | none ↦
        (do
          from_env ← get_admin_token_from_env k
          elim from_env [ none ↦ regenerate k | some t ↦ pure t ])
          w
  ]
  get_token k (some rejected) w =
      (do
        from_env ← get_admin_token_from_env k
        elim from_env [ none ↦ regenerate k | some t ↦ adopt_or_regenerate k t rejected ])
        w
