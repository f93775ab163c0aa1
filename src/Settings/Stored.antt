-- ===== src/Settings/Stored.antt =====
-- What a setting that was accepted leaves in the file.
use selfprivacy_api.Base.{
  String, true, false, ◌≡◌, refl, inl, inr, ◌⊎◌, ◌&&◌, str_eq, arith, eq_iff, Bool-cases,
  Option-cases, Result-cases, if◌then◌else◌, Dict, lookup, lookup-insert, ok, err,
}
use selfprivacy_api.Settings.Items.{
  Value, SettingError, value_error, SettingData, ServiceConfigItem, value_or, get_value,
  validate_value, dict_or_empty, write_value, set_value,
}

-- An accepted value was valid, and what is left is the written file.
pub set_value-accepted :
    (item : ServiceConfigItem) (v : Value) (service_id : String) (d d' : SettingData)
    → set_value item v service_id d ≡ (ok tt, d')
    → (validate_value item v d ≡ ok true) × (d' ≡ write_value item v service_id d)
unfolding set_value
set_value-accepted item v service_id d d' e = elim (Result-cases (validate_value item v d)) [
  | inr (x, bad) ↦ cc
  | inl (true, good) ↦ ground arith
  | inl (false, bad) ↦ cc
]

-- What the item `id` of a service reads in the modules.
abbrev read_in : (default : Value) → (id service_id : String) → Dict (Dict Value) → Value
read_in default id service_id ms =
    value_or (lookup id (dict_or_empty (lookup service_id ms))) default

get_value-read_in :
    (item : ServiceConfigItem) (service_id : String) (d : SettingData)
    → get_value item service_id d
      ≡ read_in item.default_value item.id service_id (dict_or_empty d.modules)
unfolding get_value lookup
get_value-read_in item service_id d = elim (Option-cases d.modules) [
  | inl no_modules ↦ rw no_modules refl
  | inr (ms, modules) ↦ elim (Option-cases (lookup service_id ms)) [
    | inl missing ↦ simp (modules, missing, get_value)
    | inr (m, found) ↦ ground arith
  ]
]

write_value-get_value :
    (item item' : ServiceConfigItem) (v : Value) (service_id other_id : String) (d : SettingData)
    → get_value item' other_id (write_value item v service_id d) ≡ (
        if str_eq service_id other_id && str_eq item.id item'.id
        then v
        else get_value item' other_id d)
unfolding write_value
write_value-get_value item item' v service_id other_id d =
    let ms = dict_or_empty d.modules in
    let m = dict_or_empty (lookup service_id ms) in
    elim (Bool-cases (str_eq service_id other_id)) [
      | inr unlike ↦ simp (get_value-read_in, lookup-insert, unlike)
      | inl same ↦ elim (Bool-cases (str_eq item.id item'.id)) [
        | inr unlike ↦
            simp (get_value-read_in, lookup-insert, same, unlike)
              (rw ((eq_iff service_id other_id).0 same) refl)
        | inl both ↦ simp (get_value-read_in, lookup-insert, same, both)
      ]
    ]

-- After a setting is accepted, its own item reads the new value, and every other item or service
-- reads what it read before.
pub set_value-get_value :
    (item item' : ServiceConfigItem) (v : Value) (service_id other_id : String) (d d' : SettingData)
    → set_value item v service_id d ≡ (ok tt, d')
    → get_value item' other_id d' ≡ (
        if str_eq service_id other_id && str_eq item.id item'.id
        then v
        else get_value item' other_id d)
set_value-get_value item item' v service_id other_id d d' e =
    let (good, written) = set_value-accepted item v service_id d d' e in
    rw written (write_value-get_value item item' v service_id other_id d)

-- A setting that is not accepted leaves the file as it was; it is accepted exactly when the value
-- is valid, and a value that is not valid raises a `ValueError`.
pub set_value_rejects :
    (item : ServiceConfigItem) (v : Value) (service_id : String) (d : SettingData)
    → ((validate_value item v d ≡ ok true) × ((set_value item v service_id d).0 ≡ ok tt))
      ⊎ (((validate_value item v d ≡ ok false)
            × (set_value item v service_id d ≡ (err value_error, d)))
          ⊎ ((e : SettingError) × (validate_value item v d ≡ err e)
              × (set_value item v service_id d ≡ (err e, d))))
unfolding set_value
set_value_rejects item v service_id d = elim (Result-cases (validate_value item v d)) [
  | inr (x, bad) ↦ inr (inr (x, bad, ground arith))
  | inl (true, good) ↦ inl (good, ground arith)
  | inl (false, bad) ↦ inr (inl (bad, ground arith))
]
