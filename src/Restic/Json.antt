-- ===== src/Restic/Json.antt =====
-- The output of restic as JSON: `json_start`, `has_json` and `parse_json_output` of
-- selfprivacy_api/backup/backuppers/restic_backupper.py. `json.loads` of one text is a parameter.
use Prim.Native.Char.{code}
use text.Mathlib.Text.{find?, get?}
use Prim.Native.String.{◌++◌ as str_append, len}
use selfprivacy_api.Base.{
  Char, ℕ, String, Bool, false, ◌&&◌, ◌||◌, Option, none, some, List, [], ◌∷◌, str_eq, ltb, ◌==◌,
  if◌then◌else◌, is_some, Result, ok, err,
}

-- A number stays as it is written.
mutual
  pub data Json : Type 0 where
    json_null : Json
    json_bool : Bool → Json
    json_number : String → Json
    json_text : String → Json
    json_array : Items → Json
    json_dict : Fields → Json

  pub data Items : Type 0 where
    no_items : Items
    item : Json → Items → Items

  pub data Fields : Type 0 where
    no_fields : Fields
    field : String → Json → Fields → Fields

-- The exceptions that are told apart, with the text of `str(error)`: the arguments one after the
-- other.
pub data Failure : Type 0 where
  value_error : String → Failure
  type_error : String → Failure
  failure : String → Failure

-- `str(error)`
abbrev pub told : Failure → String
told (value_error e) = e
told (type_error e) = e
told (failure e) = e

-- `needle in text_`
unfoldable pub contains : (text_ needle : String) → Bool
contains text_ needle = is_some (find? text_ needle)

-- `d[key]`: of two fields with one key the last one counts.
unfoldable pub json_get : String → Fields → Option Json
json_get key no_fields = none
json_get key (field k v rest) = elim (json_get key rest) [
  | some x ↦ some x
  | none ↦ if str_eq k key then some v else none
]

-- The characters that end a line for `splitlines`
abbrev pub ends_line : ℕ → Bool
ends_line c =
    c == 10
    || c == 11
    || c == 12
    || c == 13
    || c == 28
    || c == 29
    || c == 30
    || c == 133
    || c == 8232
    || c == 8233

abbrev starts_newline : String → Bool
starts_newline String.[] = false
starts_newline (String.◌∷◌ c s) = code c == 10

abbrev on_first_line : Char → List String → List String
on_first_line c [] = String.◌∷◌ c "" ∷ []
on_first_line c (l ∷ ls) = String.◌∷◌ c l ∷ ls

-- `text_.splitlines()`: a carriage return and a newline end one line.
unfoldable pub splitlines : (text_ : String) → List String
splitlines String.[] = []
splitlines (String.◌∷◌ c s) =
    let rest = splitlines s in
    if ends_line (code c)
    then (if code c == 13 && starts_newline s then rest else "" ∷ rest)
    else on_first_line c rest

abbrev pub smaller : Option ℕ → Option ℕ → Option ℕ
smaller none o = o
smaller (some i) none = some i
smaller (some i) (some j) = some (if ltb j i then j else i)

-- `json_start`, none for -1. The index counts bytes: it is only used to cut the text there.
unfoldable pub json_start : (output_text : String) → Option ℕ
json_start output_text = smaller (find? output_text "[") (find? output_text "{")

-- `has_json`
unfoldable pub has_json : (output_text : String) → Bool
unfolding json_start
has_json output_text = is_some (json_start output_text)

abbrev pub no_json : String → Failure
no_json output_text = value_error (str_append "There is no json in the restic output: " output_text)

abbrev pub no_json_in : String → Failure
no_json_in output_text =
    value_error (str_append "There is no json in the restic output : " output_text)

abbrev pub loaded_or : Failure → Option Json → Result Failure Json
loaded_or e none = err e
loaded_or e (some j) = ok j

abbrev pub rest_from : String → ℕ → String
rest_from s i = elim (get? s i (len s)) [ none ↦ "" | some t ↦ t ]

abbrev pub prepend : Json → Result Failure Items → Result Failure Items
prepend j (err e) = err e
prepend j (ok js) = ok (item j js)

-- `JSONDecodeError` is a `ValueError`.
unfoldable pub load_lines : (loads : String → Option Json) → List String → Result Failure Items
load_lines loads [] = ok no_items
load_lines loads (l ∷ ls) =
    let rest = load_lines loads ls in
    elim (loads l) [ none ↦ err (value_error l) | some j ↦ prepend j rest ]

abbrev pub as_array : Result Failure Items → Result Failure Json
as_array (err e) = err e
as_array (ok js) = ok (json_array js)

abbrev pub load_text :
    (loads : String → Option Json)
    → (output_text truncated : String) → List String
    → Result Failure Json
load_text loads output_text truncated (l ∷ []) =
    loaded_or (no_json_in output_text) (loads truncated)
load_text loads output_text truncated ls = as_array (load_lines loads ls)

unfoldable pub parse_json_output :
    (loads : String → Option Json) → (output_text : String) → Result Failure Json
unfolding json_start splitlines load_lines
parse_json_output loads output_text = elim (json_start output_text) [
  | none ↦ err (no_json output_text)
  | some i ↦
      let truncated = rest_from output_text i in
      load_text loads output_text truncated (splitlines truncated)
]
