-- ===== src/Settings/Items.antt =====
-- The four classes of configuration items (selfprivacy_api/services/config_item.py) on the part
-- `modules` of userdata.json. A compiled regular expression is its pattern and its `match`.
use selfprivacy_api.Base.{
  ℕ, String, Bool, true, false, ◌&&◌, ◌||◌, not, Option, none, some, List, [], ◌∷◌, str_eq,
  if◌then◌else◌, Dict, lookup, insert, str_mem, Result, ok, err, Action,
}
use selfprivacy_api.Base.Int.{ℤ, pos, leb_ℤ}

-- A value of the JSON file; a list or an object is kept as its text.
pub data Value : Type 0 where
  text : String → Value
  boolean : Bool → Value
  number : ℤ → Value
  null : Value
  other : String → Value

pub data SettingError : Type 0 where
  value_error key_error : SettingError

-- `user_data["modules"]`, where the key is there
pub record SettingData : Type 0 where
  pub modules : Option (Dict (Dict Value))

pub record Regex : Type 0 where
  pub pattern : String
  pub matches : String → Bool

pub data ItemKind : Type 0 where
  string_kind : (regex : Option Regex) → (allow_empty : Bool) → ItemKind
  bool_kind : ItemKind
  enum_kind : (options : List String) → ItemKind
  int_kind : (min_value max_value : Option ℤ) → ItemKind

pub record ServiceConfigItem : Type 0 where
  pub id : String
  pub description : String
  pub default_value : Value
  pub widget : String
  pub weight : ℕ
  pub kind : ItemKind

-- `widget if widget else default`
abbrev pub widget_or : Option String → String → String
widget_or none default = default
widget_or (some w) default = if str_eq w "" then default else w

-- `widget == "subdomain" and not regex`, where no regular expression is the empty text
abbrev pub lacks_regex : Option String → Option Regex → Bool
lacks_regex (some w) none = str_eq w "subdomain"
lacks_regex _ _ = false

unfoldable pub string_item :
    (id default_value description : String) (regex : Option Regex) (widget : Option String)
    (allow_empty : Bool) (weight : ℕ)
    → Result SettingError ServiceConfigItem
string_item id default_value description regex widget allow_empty weight =
    if lacks_regex widget regex
    then err value_error
    else ok (record {
      id = id;
      description = description;
      default_value = text default_value;
      widget = widget_or widget "text";
      weight = weight;
      kind = string_kind regex allow_empty;
    })

unfoldable pub bool_item :
    (id : String)
    → (default_value : Bool) → (description : String) → (widget : Option String) → (weight : ℕ)
    → ServiceConfigItem
bool_item id default_value description widget weight = record {
  id = id;
  description = description;
  default_value = boolean default_value;
  widget = widget_or widget "switch";
  weight = weight;
  kind = bool_kind;
}

unfoldable pub enum_item :
    (id default_value description : String)
    → (options : List String) → (widget : Option String) → (weight : ℕ) → ServiceConfigItem
enum_item id default_value description options widget weight = record {
  id = id;
  description = description;
  default_value = text default_value;
  widget = widget_or widget "select";
  weight = weight;
  kind = enum_kind options;
}

unfoldable pub int_item :
    (id : String)
    → (default_value : ℤ) → (description : String) → (widget : Option String)
    → (min_value max_value : Option ℤ) → (weight : ℕ) → ServiceConfigItem
int_item id default_value description widget min_value max_value weight = record {
  id = id;
  description = description;
  default_value = number default_value;
  widget = widget_or widget "number";
  weight = weight;
  kind = int_kind min_value max_value;
}

abbrev pub value_or : Option Value → Value → Value
value_or none default = default
value_or (some v) default = v

-- `get_value`, the same in the four classes
unfoldable pub get_value : ServiceConfigItem → String → SettingData → Value
get_value item service_id d = elim d.modules [
  | none ↦ item.default_value
  | some ms ↦ elim (lookup service_id ms) [
    | none ↦ item.default_value
    | some m ↦ value_or (lookup item.id m) item.default_value
  ]
]

-- `DEFAULT_SUBDOMAINS`
abbrev pub default_subdomains : Dict String
default_subdomains =
    ("bitwarden", "password")
    ∷ ("gitea", "git")
    ∷ ("jitsi-meet", "meet")
    ∷ ("simple-nixos-mailserver", "")
    ∷ ("nextcloud", "cloud")
    ∷ ("ocserv", "vpn")
    ∷ ("pleroma", "social")
    ∷ ("roundcube", "roundcube")
    ∷ ("testservice", "test")
    ∷ ("monitoring", "")
    ∷ []

-- `RESERVED_SUBDOMAINS`
abbrev reserved_subdomains : List String
reserved_subdomains = "admin" ∷ "administrator" ∷ "api" ∷ "auth" ∷ "user" ∷ "users" ∷ "ntfy" ∷ []

abbrev pub text_or_empty : Option String → String
text_or_empty none = ""
text_or_empty (some s) = s

-- `data["modules"][module].get("subdomain", DEFAULT_SUBDOMAINS.get(module, ""))`
unfoldable pub subdomain_of : String → Dict Value → Value
subdomain_of name m =
    value_or (lookup "subdomain" m) (text (text_or_empty (lookup name default_subdomains)))

abbrev pub is_text : String → Value → Bool
is_text s (text t) = str_eq t s
is_text s _ = false

-- The loop over the modules.
unfoldable pub is_taken_in : String → Dict (Dict Value) → Bool
is_taken_in subdomain [] = false
is_taken_in subdomain ((name, m) ∷ ms) =
    is_text subdomain (subdomain_of name m) || is_taken_in subdomain ms

-- `subdomain in RESERVED_SUBDOMAINS`
unfoldable pub is_reserved : String → Bool
unfolding str_mem
is_reserved subdomain = str_mem subdomain reserved_subdomains

unfoldable pub check_if_subdomain_is_taken : String → SettingData → Result SettingError Bool
unfolding is_reserved is_taken_in
check_if_subdomain_is_taken subdomain d =
    if is_reserved subdomain
    then ok true
    else elim d.modules [ none ↦ err key_error | some ms ↦ ok (is_taken_in subdomain ms) ]

abbrev pub regex_fails : Option Regex → String → Bool
regex_fails none s = false
regex_fails (some r) s = not (r.matches s)

abbrev pub not_result : Result SettingError Bool → Result SettingError Bool
not_result (ok b) = ok (not b)
not_result (err e) = err e

abbrev pub is_above : Option ℤ → ℤ → Bool
is_above none n = true
is_above (some b) n = leb_ℤ b n

abbrev pub is_below : Option ℤ → ℤ → Bool
is_below none n = true
is_below (some b) n = leb_ℤ n b

-- A Python `bool` is an `int`.
abbrev pub as_int : Value → Option ℤ
as_int (number n) = some n
as_int (boolean b) = some (if b then pos 1 else pos 0)
as_int _ = none

unfoldable pub validate_string :
    (regex : Option Regex)
    → (allow_empty : Bool) → (widget : String) → String
    → SettingData
    → Result SettingError Bool
unfolding check_if_subdomain_is_taken
validate_string regex allow_empty widget s d =
    if not allow_empty && str_eq s ""
    then ok false
    else if regex_fails regex s
    then ok false
    else if str_eq widget "subdomain"
    then not_result (check_if_subdomain_is_taken s d)
    else ok true

unfoldable pub validate_int : (min_value max_value : Option ℤ) → Value → Bool
validate_int min_value max_value v = elim (as_int v) [
  | none ↦ false
  | some n ↦ is_above min_value n && is_below max_value n
]

abbrev pub validate_kind :
    ItemKind → (widget : String) → Value → SettingData → Result SettingError Bool
validate_kind (string_kind regex allow_empty) widget (text s) d =
    validate_string regex allow_empty widget s d
validate_kind (string_kind _ _) widget _ d = ok false
validate_kind bool_kind widget (boolean _) d = ok true
validate_kind bool_kind widget _ d = ok false
validate_kind (enum_kind options) widget (text s) d = ok (str_mem s options)
validate_kind (enum_kind _) widget _ d = ok false
validate_kind (int_kind low high) widget v d = ok (validate_int low high v)

unfoldable pub validate_value : ServiceConfigItem → Value → SettingData → Result SettingError Bool
unfolding validate_string validate_int str_mem
validate_value item v d = validate_kind item.kind item.widget v d

abbrev pub dict_or_empty {ℓ} : {V : Type ℓ} → Option (Dict V) → Dict V
dict_or_empty none = []
dict_or_empty (some m) = m

-- The block under `WriteUserData`.
unfoldable pub write_value : ServiceConfigItem → Value → String → SettingData → SettingData
write_value item v service_id d =
    let ms = dict_or_empty d.modules in
    let m = dict_or_empty (lookup service_id ms) in
    record { modules = some (insert service_id (insert item.id v m) ms) }

-- `set_value`, the same in the four classes
unfoldable pub set_value :
    ServiceConfigItem → Value → String → Action SettingData SettingError (Unit {0})
unfolding validate_value write_value
set_value item v service_id d = elim (validate_value item v d) [
  | err e ↦ (err e, d)
  | ok false ↦ (err value_error, d)
  | ok true ↦ (ok tt, write_value item v service_id d)
]

-- What `as_dict` says of one class only.
pub data Detail : Type 0 where
  with_regex : (pattern : Option String) → Detail
  plain : Detail
  with_options : (options : List String) → Detail
  with_bounds : (min_value max_value : Option ℤ) → Detail

pub record ItemDict : Type 0 where
  pub id : String
  pub item_type : String
  pub description : String
  pub widget : String
  pub value : Value
  pub default_value : Value
  pub weight : ℕ
  pub detail : Detail

abbrev pub pattern_of : Option Regex → Option String
pattern_of none = none
pattern_of (some r) = some r.pattern

abbrev pub type_of : ItemKind → String × Detail
type_of (string_kind regex _) = ("string", with_regex (pattern_of regex))
type_of bool_kind = ("bool", plain)
type_of (enum_kind options) = ("enum", with_options options)
type_of (int_kind low high) = ("int", with_bounds low high)

unfoldable pub as_dict : ServiceConfigItem → String → SettingData → ItemDict
unfolding get_value
as_dict item service_id d = record {
  id = item.id;
  item_type = (type_of item.kind).0;
  description = item.description;
  widget = item.widget;
  value = get_value item service_id d;
  default_value = item.default_value;
  weight = item.weight;
  detail = (type_of item.kind).1;
}
