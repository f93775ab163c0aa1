-- ===== src/Panel/Session.antt =====
-- `Session` and the functions on it (selfprivacy_api/userpanel/auth/session.py). Redis keeps a
-- session under the hash of its token until the second that `EXAT` names.
use Prim.Native.String.{◌++◌ as str_append}
use selfprivacy_api.Base.{
  ℕ, ◌+◌, String, Bool, not, Option, none, some, if◌then◌else◌, leb, Dict, lookup, insert, erase,
  ok, ◌*◌, Action, pure, gets, modify, raise_if, ◌>>=◌, ◌>>◌,
}

pub record Session : Type 0 where
  pub id : String
  pub user_id : String
  pub expires_at : ℕ

pub record Stored : Type 0 where
  pub session : Session
  pub exat : ℕ

abbrev pub SessionStore : Type 0
SessionStore = Dict Stored

-- `connected` is whether there is a connection, `clock n` the n-th reading of the clock of one call.
pub record SessionEnv : Type 0 where
  pub connected : Bool
  pub clock : ℕ → ℕ

abbrev pub session_key : String → String
session_key session_id = str_append "session:" session_id

abbrev pub storage_missing : String
storage_missing = "Redis storage is not available"

-- Redis `GET`
unfoldable pub redis_get : ℕ → String → SessionStore → Option Session
unfolding lookup
redis_get now key s = elim (lookup key s) [
  | none ↦ none
  | some e ↦ if leb e.exat now then none else some e.session
]

-- Redis `SET` with `EXAT`
unfoldable pub redis_set : Session → SessionStore → SessionStore
unfolding insert
redis_set session s =
    insert (session_key session.id) (record { session = session; exat = session.expires_at }) s

abbrev pub Panel : Type 0 → Type 0
Panel A = Action SessionStore String A

module _ (sha256 : String → String) (env : SessionEnv) where
  abbrev pub new_session : (token user_id : String) → Session
  new_session token user_id = record {
    id = sha256 token;
    user_id = user_id;
    expires_at = env.clock 0 + 60 * 60;
  }

  unfoldable pub create_session : (token user_id : String) → Panel Session
  unfolding redis_set
  create_session token user_id = do
    raise_if (not env.connected) storage_missing
    modify (redis_set (new_session token user_id))
    pure (new_session token user_id)

  abbrev pub renewed : Session → Session
  renewed session = record session { expires_at = env.clock 3 + 60 * 60 }

  -- What `validate_session_token` does with the session it read.
  unfoldable pub checked : (session_id : String) → Session → Panel (Option Session)
  unfolding redis_set erase
  checked session_id session s =
      if leb session.expires_at (env.clock 1)
      then (ok none, erase (session_key session_id) s)
      else if leb session.expires_at (env.clock 2 + 30 * 60)
      then (ok (some (renewed session)), redis_set (renewed session) s)
      else (ok (some session), s)

  abbrev pub check_item : (session_id : String) → Option Session → Panel (Option Session)
  check_item session_id none = pure none
  check_item session_id (some session) = checked session_id session

  unfoldable pub validate_session_token : (token : String) → Panel (Option Session)
  unfolding redis_get checked
  validate_session_token token = do
    raise_if (not env.connected) storage_missing
    item ← gets (redis_get (env.clock 0) (session_key (sha256 token)))
    check_item (sha256 token) item

  unfoldable pub invalidate_session : (session_id : String) → Panel (Unit {0})
  unfolding erase
  invalidate_session session_id = do
    raise_if (not env.connected) storage_missing
    modify (erase (session_key session_id))
