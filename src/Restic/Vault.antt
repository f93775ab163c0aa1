-- ===== src/Restic/Vault.antt =====
-- The secret of the backups (selfprivacy_api/backup/local_secret.py), and what the backupper asks
-- of the machine: processes, JSON, dates and files are a parameter over a remote state.
use Prim.Native.String.{◌++◌ as str_append}
use selfprivacy_api.Base.{
  ℕ, String, Bool, Option, none, some, List, Result, ok, Action, pure, ◌>>=◌, ◌>>◌,
}
use selfprivacy_api.Restic.Json.{Json, Failure}

-- `returned_zero` is `handle.returncode == 0`; `complaints` is the error stream where it has a
-- pipe of its own.
pub record Completed : Type 0 where
  pub printed : String
  pub complaints : String
  pub returned_zero : Bool

-- `secret` is the key `backup:local_secret` of Redis.
pub record Vault (R : Type 0) : Type 0 where
  pub secret : Option String
  pub remote : R

-- `popen` runs a program to its end, `read_lines` reads its lines, and `kill` is what follows when
-- the reader stops early. `rounds` is the number of intervals until the time limit of a waiting
-- loop, `percent` is `int(100 * x)` of a number as it is written.
pub record Machine (R : Type 0) : Type 0 where
  pub generate : String
  pub write_password_file : (content : String) → Action R Failure (Unit {0})
  pub popen : List String → Action R Failure Completed
  pub read_lines : List String → Action R Failure (List String)
  pub kill : List String → R → R
  pub loads : String → Option Json
  pub percent : String → ℕ
  pub parse_time : String → Option ℕ
  pub now : ℕ
  pub rounds : ℕ
  pub make_temp_dir : Action R Failure String
  pub remove_temp_dir : String → R → R
  pub exists : String → R → Bool
  pub listdir : String → Action R Failure (List String)
  pub is_file_or_link : String → R → Bool
  pub is_dir : String → R → Bool
  pub unlink : String → Action R Failure (Unit {0})
  pub rmtree : String → Action R Failure (Unit {0})

-- `RESTIC_PASSWORD_FILE`
abbrev pub restic_password_file : String
restic_password_file = "/run/selfprivacy-api/restic-password"

-- A method of the backupper
abbrev pub Call : Type 0 → Type 0 → Type 0
Call R A = Action (Vault R) Failure A

module _ {R : Type 0} where
  abbrev pub on_machine : {A : Type 0} → Action R Failure A → Call R A
  on_machine m v = ((m v.remote).0, record v { remote = (m v.remote).1 })

  -- A result that is computed without the machine.
  abbrev pub give : {A : Type 0} → Result Failure A → Call R A
  give r v = (r, v)

  -- `LocalBackupSecret.set`
  unfoldable pub set_secret : String → Vault R → Vault R
  set_secret new_secret v = record v { secret = some new_secret }

  -- `LocalBackupSecret.reset`
  unfoldable pub reset_secret : Machine R → Vault R → Vault R
  unfolding set_secret
  reset_secret m v = set_secret m.generate v

  -- `LocalBackupSecret._full_reset`
  unfoldable pub full_reset : Vault R → Vault R
  full_reset v = record v { secret = none }

  abbrev pub secret_or_new : Machine R → Option String → Call R String
  secret_or_new m none v = (ok m.generate, reset_secret m v)
  secret_or_new m (some s) v = (ok s, v)

  -- `LocalBackupSecret.get`
  unfoldable pub get_secret : Machine R → Call R String
  unfolding reset_secret
  get_secret m v = secret_or_new m v.secret v

  -- `LocalBackupSecret.password_file`
  unfoldable pub password_file : Machine R → Call R String
  unfolding get_secret
  password_file m = do
    secret ← get_secret m
    on_machine (m.write_password_file (str_append secret "\n"))
    pure restic_password_file
