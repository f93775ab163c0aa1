-- ===== src/Settings/Subdomains.antt =====
-- The subdomains of the services: an accepted one belongs to one service.
use mathlib.Core.Path.{subst}
use mathlib.Core.Option.{some-injective}
use selfprivacy_api.Base.{
  ℕ, String, Bool, true, false, ◌≡◌, refl, sym, ap, ◌∙◌, inl, inr, Option, some, [], ◌∷◌, str_eq,
  arith, eq_iff, eq_refl, Bool-cases, Option-cases, Dict, lookup, insert, lookup-insert,
  lookup-insert_self, AllEntries, lookup-AllEntries, ok, err,
}
use selfprivacy_api.Settings.Items.{
  Value, text, boolean, number, null, other, value_error, SettingData, ServiceConfigItem, Regex,
  string_kind, string_item, is_reserved, subdomain_of, is_text, is_taken_in,
  check_if_subdomain_is_taken, validate_string, validate_value, dict_or_empty, write_value,
  set_value,
}
use selfprivacy_api.Settings.Stored.{set_value-accepted}

-- No module of the list has the subdomain.
abbrev IsFreeIn : String → String → Dict Value → Type 0
IsFreeIn s name m = is_text s (subdomain_of name m) ≡ false

is_taken_in_lem :
    (s : String) (ms : Dict (Dict Value)) → is_taken_in s ms ≡ false → AllEntries (IsFreeIn s) ms
unfolding is_taken_in
is_taken_in_lem s [] free = tt
is_taken_in_lem s ((name, m) ∷ ms) free = elim (Bool-cases (is_text s (subdomain_of name m))) [
  | inl same ↦ cc
  | inr unlike ↦ (unlike, is_taken_in_lem s ms (rw unlike at free))
]

has_taken_in :
    (s name : String) (m : Dict Value) (ms : Dict (Dict Value))
    → is_text s (subdomain_of name m) ≡ true
    → is_taken_in s (insert name m ms) ≡ true
unfolding is_taken_in insert
has_taken_in s name m [] same = ground arith
has_taken_in s name m ((j, n) ∷ ms) same = ground (arith, has_taken_in s name m ms same)

-- An item that holds the subdomain of a service.
abbrev pub subdomain_item : String → String → Regex → Bool → ℕ → ServiceConfigItem
subdomain_item default description regex allow_empty weight = record {
  id = "subdomain";
  description = description;
  default_value = text default;
  widget = "subdomain";
  weight = weight;
  kind = string_kind (some regex) allow_empty;
}

string_item-subdomain :
    (default description : String) (regex : Regex) (allow_empty : Bool) (weight : ℕ)
    → string_item "subdomain" default description (some regex) (some "subdomain") allow_empty weight
      ≡ ok (subdomain_item default description regex allow_empty weight)
unfolding string_item
string_item-subdomain default description regex allow_empty weight = refl

-- What the text test says: the value is that text.
is_text_lem : (s : String) (v : Value) → is_text s v ≡ true → v ≡ text s
is_text_lem s (text t) h = ap text ((eq_iff t s).0 h)
is_text_lem s (boolean b) h = cc
is_text_lem s (number n) h = cc
is_text_lem s null h = cc
is_text_lem s (other o) h = cc

check_if_subdomain_is_taken_lem :
    (s : String) (d : SettingData)
    → check_if_subdomain_is_taken s d ≡ ok false
    → (is_reserved s ≡ false)
      × ((ms : Dict (Dict Value)) × (d.modules ≡ some ms) × (is_taken_in s ms ≡ false))
unfolding check_if_subdomain_is_taken
check_if_subdomain_is_taken_lem s d free = elim (Bool-cases (is_reserved s)) [
  | inl reserved ↦ cc
  | inr allowed ↦ elim (Option-cases d.modules) [
    | inl no_modules ↦ ground arith
    | inr (ms, modules) ↦ (allowed, (ms, modules, ground arith))
  ]
]

validate_string-subdomain :
    (regex : Option Regex) (allow_empty : Bool) (s : String) (d : SettingData)
    → validate_string regex allow_empty "subdomain" s d ≡ ok true
    → check_if_subdomain_is_taken s d ≡ ok false
unfolding validate_string
validate_string-subdomain regex allow_empty s d valid = ground arith

validate_subdomain :
    (default description : String) (regex : Regex) (allow_empty : Bool) (weight : ℕ) (s : String)
    (d : SettingData)
    → validate_value (subdomain_item default description regex allow_empty weight) (text s) d
      ≡ ok true
    → (is_reserved s ≡ false)
      × ((ms : Dict (Dict Value)) × (d.modules ≡ some ms) × (is_taken_in s ms ≡ false))
unfolding validate_value
validate_subdomain default description regex allow_empty weight s d valid =
    check_if_subdomain_is_taken_lem s d
      (validate_string-subdomain (some regex) allow_empty s d valid)

taken-validate_subdomain :
    (default description : String) (regex : Regex) (allow_empty : Bool) (weight : ℕ) (s : String)
    (d : SettingData)
    → check_if_subdomain_is_taken s d ≡ ok true
    → validate_value (subdomain_item default description regex allow_empty weight) (text s) d
      ≡ ok false
unfolding validate_value validate_string
taken-validate_subdomain default description regex allow_empty weight s d taken = ground arith

write_value-modules :
    (item : ServiceConfigItem) (v : Value) (service_id : String) (d : SettingData)
    (ms : Dict (Dict Value))
    → d.modules ≡ some ms
    → (write_value item v service_id d).modules
      ≡ some (insert service_id (insert item.id v (dict_or_empty (lookup service_id ms))) ms)
unfolding write_value
write_value-modules item v service_id d ms modules = rw modules refl

subdomain_of-insert :
    (name s : String) (m : Dict Value) → subdomain_of name (insert "subdomain" (text s) m) ≡ text s
unfolding subdomain_of
subdomain_of-insert name s m = simp lookup-insert_self

subdomain_after :
    (s service_id : String) (m : Dict Value) (ms : Dict (Dict Value))
    → is_taken_in s ms ≡ false
    → (name : String) (n : Dict Value)
    → lookup name (insert service_id (insert "subdomain" (text s) m) ms) ≡ some n
    → is_text s (subdomain_of name n) ≡ str_eq service_id name
subdomain_after s service_id m ms free name n found =
    let entry : Dict Value = insert "subdomain" (text s) m in
    let found' = sym (lookup-insert name service_id entry ms) ∙ found in
    elim (Bool-cases (str_eq service_id name)) [
      | inl same ↦
          let written : entry ≡ n = some-injective _ _ (rw same at found') in
          rw same (
            subst (λ x. is_text s (subdomain_of name x) ≡ true) written
              (rw subdomain_of-insert (eq_refl s)))
      | inr unlike ↦ rw unlike (
          lookup-AllEntries (IsFreeIn s) name n ms (is_taken_in_lem s ms free)
            (rw unlike at found'))
    ]

taken-check_if_subdomain_is_taken :
    (s : String) (ms : Dict (Dict Value)) (d : SettingData)
    → d.modules ≡ some ms
    → is_taken_in s ms ≡ true
    → check_if_subdomain_is_taken s d ≡ ok true
unfolding check_if_subdomain_is_taken
taken-check_if_subdomain_is_taken s ms d modules taken = ground arith

refused :
    (item : ServiceConfigItem) (v : Value) (service_id : String) (d : SettingData)
    → validate_value item v d ≡ ok false
    → set_value item v service_id d ≡ (err value_error, d)
unfolding set_value
refused item v service_id d bad = ground arith

-- Once a subdomain is accepted for a service, it is not reserved, and of the modules in the file
-- exactly this service's has it.
pub set_subdomain_unique :
    (default description : String) (regex : Regex) (allow_empty : Bool) (weight : ℕ)
    (s service_id : String) (d d' : SettingData)
    → set_value (subdomain_item default description regex allow_empty weight) (text s) service_id d
      ≡ (ok tt, d')
    → (is_reserved s ≡ false)
      × ((ms : Dict (Dict Value)) × (d'.modules ≡ some ms)
          × ((name : String) (m : Dict Value)
              → lookup name ms ≡ some m
              → is_text s (subdomain_of name m) ≡ str_eq service_id name))
set_subdomain_unique default description regex allow_empty weight s service_id d d' e =
    let item = subdomain_item default description regex allow_empty weight in
    let (valid, written) = set_value-accepted item (text s) service_id d d' e in
    let (allowed, (ms, modules, free)) =
      validate_subdomain default description regex allow_empty weight s d valid in
    (
      allowed,
      (
        _,
        ap (λ (x : SettingData). x.modules) written
            ∙ write_value-modules item (text s) service_id d ms modules,
        λ name m found. subdomain_after s service_id _ ms free name m found,
      ),
    )

-- Once a subdomain is accepted, setting it again is refused with a `ValueError`, for the service
-- that has it as for any other, and leaves the file as it is.
pub set_subdomain_twice :
    (default description : String) (regex : Regex) (allow_empty : Bool) (weight : ℕ)
    (s service_id other_id : String) (d d' : SettingData)
    → set_value (subdomain_item default description regex allow_empty weight) (text s) service_id d
      ≡ (ok tt, d')
    → set_value (subdomain_item default description regex allow_empty weight) (text s) other_id d'
      ≡ (err value_error, d')
set_subdomain_twice default description regex allow_empty weight s service_id other_id d d' e =
    let item = subdomain_item default description regex allow_empty weight in
    let (valid, written) = set_value-accepted item (text s) service_id d d' e in
    let (allowed, (ms, modules, free)) =
      validate_subdomain default description regex allow_empty weight s d valid in
    let m : Dict Value = insert "subdomain" (text s) (dict_or_empty (lookup service_id ms)) in
    let now : d'.modules ≡ some (insert service_id m ms) =
      ap (λ (x : SettingData). x.modules) written
      ∙ write_value-modules item (text s) service_id d ms modules in
    let taken : is_taken_in s (insert service_id m ms) ≡ true =
      has_taken_in s service_id m ms (rw subdomain_of-insert (eq_refl s)) in
    refused item (text s) other_id d' (
      taken-validate_subdomain default description regex allow_empty weight s d'
        (taken-check_if_subdomain_is_taken s (insert service_id m ms) d' now taken))
