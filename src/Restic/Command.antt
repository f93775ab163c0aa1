-- ===== src/Restic/Command.antt =====
-- The commands of `ResticBackupper` (selfprivacy_api/backup/backuppers/restic_backupper.py): how
-- they are put together, and how the key and the secret are hidden in them.
use selfprivacy_api.Restic.Vault.{Call, Machine, get_secret, password_file}
use Prim.Native.String.{◌++◌ as str_append, count}
use text.Mathlib.Text.{starts_with}
use selfprivacy_api.Base.{
  zero, suc, ◌-◌, ℕ, String, List, [], ◌∷◌, ◌++◌, str_eq, if◌then◌else◌, map, pure, ◌>>=◌,
}

pub record ResticBackupper : Type 0 where
  pub login_flag : String
  pub key_flag : String
  pub storage_type : String
  pub account : String
  pub key : String
  pub repo : String

-- `ResticBackupper.__init__`
unfoldable pub new_backupper : (login_flag key_flag storage_type : String) → ResticBackupper
new_backupper login_flag key_flag storage_type = record {
  login_flag = login_flag;
  key_flag = key_flag;
  storage_type = storage_type;
  account = "";
  key = "";
  repo = "";
}

-- `set_creds`
unfoldable pub set_creds : (account key repo : String) → ResticBackupper → ResticBackupper
set_creds account key repo p = record p { account = account; key = key; repo = repo }

unfoldable pub rclone_repo : ResticBackupper → String
rclone_repo p = str_append p.storage_type p.repo

unfoldable pub restic_repo : ResticBackupper → String
unfolding rclone_repo
restic_repo p = str_append "rclone:" (rclone_repo p)

abbrev flagged : (flag value : String) → List String
flagged flag value = if str_eq value "" then [] else flag ∷ value ∷ []

unfoldable pub backend_rclone_args : ResticBackupper → List String
backend_rclone_args p = flagged p.login_flag p.account ++ flagged p.key_flag p.key

-- `" ".join(words)`
abbrev pub join_words : List String → String
join_words [] = ""
join_words (x ∷ []) = x
join_words (x ∷ y ∷ xs) = str_append x (str_append " " (join_words (y ∷ xs)))

unfoldable pub rclone_args : ResticBackupper → String
unfolding backend_rclone_args
rclone_args p = str_append "rclone.args=serve restic --stdio " (join_words (backend_rclone_args p))

-- The arguments of `restic_command`, which may be nested lists
mutual
  pub data Arg : Type 0 where
    word : String → Arg
    nested : Args → Arg

  pub data Args : Type 0 where
    no_args : Args
    arg : Arg → Args → Args

-- `__flatten_list`
unfoldable mutual
  pub flatten_list : Args → List String
  flatten_list no_args = []
  flatten_list (arg x xs) = flatten_item x ++ flatten_list xs

  pub flatten_item : Arg → List String
  flatten_item (word w) = w ∷ []
  flatten_item (nested xs) = flatten_list xs

-- A list of texts as arguments
abbrev pub args_of : List String → Args
args_of [] = no_args
args_of (x ∷ xs) = arg (word x) (args_of xs)

abbrev pub tag_args : List String → List String
tag_args [] = []
tag_args (t ∷ ts) = "--tag" ∷ t ∷ tag_args ts

module _ {R : Type 0} where
  -- The command, once the password file is written
  abbrev pub command_line :
      ResticBackupper → Args → (tags : List String) → (secret_path : String) → Call R (List String)
  command_line p xs tags secret_path = pure (
      ("restic"
        ∷ "-o"
        ∷ rclone_args p
        ∷ "-r"
        ∷ restic_repo p
        ∷ "--password-file"
        ∷ secret_path
        ∷ [])
      ++ tag_args tags
      ++ flatten_list xs)

  unfoldable pub restic_command :
      Machine R → ResticBackupper → Args → (tags : List String) → Call R (List String)
  unfolding rclone_args restic_repo password_file flatten_list
  restic_command m p xs tags = password_file m >>= command_line p xs tags

-- `value.replace(target, replacement)` for a target that is not empty: after a match the search
-- goes on behind it. `skip` is how many characters of a match are left.
unfoldable pub replace_from : (target replacement : String) → (skip : ℕ) → (value : String) → String
replace_from target replacement skip String.[] = ""
replace_from target replacement (suc n) (String.◌∷◌ c s) = replace_from target replacement n s
replace_from target replacement zero (String.◌∷◌ c s) =
    let here = starts_with (String.◌∷◌ c s) target in
    let rest = replace_from target replacement (if here then count target - 1 else 0) s in
    if here then str_append replacement rest else String.◌∷◌ c rest

-- `_replace_in_array`
unfoldable pub replace_in_array : List String → (target replacement : String) → List String
unfolding replace_from
replace_in_array array target replacement =
    if str_eq target ""
    then array
    else map (λ (value : String). replace_from target replacement 0 value) array

module _ {R : Type 0} where
  -- `_censor_command`
  unfoldable pub censor_command : Machine R → ResticBackupper → List String → Call R (List String)
  unfolding replace_in_array get_secret
  censor_command m p command = do
    secret ← get_secret m
    pure (replace_in_array (replace_in_array command p.key "CENSORED") secret "CENSORED")
