-- ===== src/Actions/Names.antt =====
-- The checks of a new username (`create_user` of selfprivacy_api/actions/users.py and
-- `is_username_or_prefix_reserved` of selfprivacy_api/utils/__init__.py).
use Prim.Native.Char.{code}
use selfprivacy_api.Base.{
  ℕ, suc, String, Char, Bool, true, false, ◌&&◌, ◌||◌, Option, none, some, List, [], ◌∷◌,
  if◌then◌else◌, leb, ◌==◌, str_mem,
}

abbrev pub reserved_prefixes : List String
reserved_prefixes = "systemd" ∷ "nixbld" ∷ []

abbrev pub reserved_usernames : List String
reserved_usernames =
    "root" ∷ "messagebus" ∷ "postfix" ∷ "polkituser" ∷ "dovecot2" ∷ "dovenull" ∷ "nginx"
    ∷ "postgres" ∷ "prosody" ∷ "opendkim" ∷ "rspamd" ∷ "sshd" ∷ "selfprivacy-api" ∷ "restic"
    ∷ "redis" ∷ "pleroma" ∷ "ocserv" ∷ "nextcloud" ∷ "memcached" ∷ "knot-resolver" ∷ "gitea"
    ∷ "bitwarden_rs" ∷ "vaultwarden" ∷ "acme" ∷ "virtualMail" ∷ "nobody" ∷ []

unfoldable pub starts_with : (prefix s : String) → Bool
starts_with String.[] s = true
starts_with (String.◌∷◌ p ps) String.[] = false
starts_with (String.◌∷◌ p ps) (String.◌∷◌ c s) = (code p == code c) && starts_with ps s

-- A prefix, `True` or `False`.
pub data Reserved : Type 0 where
  by_prefix : String → Reserved
  by_name : Reserved
  not_reserved : Reserved

abbrev pub first_prefix : String → List String → Option String
first_prefix username [] = none
first_prefix username (p ∷ ps) = if starts_with p username then some p else first_prefix username ps

abbrev pub reserved_by : Option String → (is_reserved_name : Bool) → Reserved
reserved_by (some p) is_reserved_name = by_prefix p
reserved_by none is_reserved_name = if is_reserved_name then by_name else not_reserved

unfoldable pub is_username_or_prefix_reserved : String → Reserved
unfolding starts_with str_mem
is_username_or_prefix_reserved username =
    reserved_by (first_prefix username reserved_prefixes) (str_mem username reserved_usernames)

-- `len(s)`
unfoldable pub str_length : String → ℕ
str_length String.[] = 0
str_length (String.◌∷◌ c s) = suc (str_length s)

-- `[a-z_]` and `[a-z0-9_]`
abbrev pub is_name_start : Char → Bool
is_name_start c = (leb b'a' (code c) && leb (code c) b'z') || code c == b'_'

abbrev pub is_name_char : Char → Bool
is_name_char c = is_name_start c || (leb b'0' (code c) && leb (code c) b'9')

-- `[a-z0-9_]*$`: the dollar matches before a newline at the end too.
unfoldable pub matches_rest : String → Bool
matches_rest String.[] = true
matches_rest (String.◌∷◌ c String.[]) = is_name_char c || code c == 10
matches_rest (String.◌∷◌ c (String.◌∷◌ d s)) = is_name_char c && matches_rest (String.◌∷◌ d s)

abbrev pub matches_one_more : String → Bool
matches_one_more String.[] = false
matches_one_more (String.◌∷◌ c s) = is_name_char c && matches_rest s

-- `re.match(r"^[a-z_][a-z0-9_]+$", username)`
unfoldable pub matches_name : String → Bool
unfolding matches_rest
matches_name String.[] = false
matches_name (String.◌∷◌ c s) = is_name_start c && matches_one_more s
