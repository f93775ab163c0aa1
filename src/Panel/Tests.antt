-- ===== src/Panel/Tests.antt =====
-- The theorems on sessions at concrete inputs.
use selfprivacy_api.Base.{ℕ, ◌+◌, ◌*◌, ◌<◌, String, ◌≡◌, refl, true, some, [], arith, ok}
use selfprivacy_api.Panel.Session.{
  Session, SessionStore, SessionEnv, create_session, validate_session_token, invalidate_session,
}
use selfprivacy_api.Panel.Lifetime.{created_session_is_valid}

abbrev plain_hash : String → String
plain_hash token = token

abbrev at_second : ℕ → SessionEnv
at_second n = record { connected = true; clock = λ i. n + i }

abbrev made : SessionStore
made = (create_session plain_hash (at_second 100) "t" "alice" []).1

created_session_is_valid_example :
    (y : Session) × ((validate_session_token plain_hash (at_second 2000) "t" made).0 ≡ ok (some y))
    × (y.user_id ≡ "alice")
    × (2002 + 30 * 60 < y.expires_at)
created_session_is_valid_example =
    created_session_is_valid plain_hash (at_second 100) (at_second 2000) "t" "alice" [] refl refl
      (omega arith) (omega arith) (omega arith)

abbrev left : SessionStore
left = (invalidate_session plain_hash (at_second 200) "t" made).1
