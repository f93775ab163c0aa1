-- ===== src/Flake/RoundTrip.antt =====
-- What the flake service manager writes is what it reads the next time.
use mathlib.Core.Option.{some-injective}
use mathlib.Core.List.{append-nil, append_assoc}
use selfprivacy_api.Base.{
  String, ◌≡◌, refl, sym, ap, ◌∙◌, inl, inr, false, none, some, [], ◌∷◌, ◌++◌, arith, str_eq,
  eq_iff, Bool-cases, Dict, lookup, insert_new, NodupKeys, AllEntries,
}
use selfprivacy_api.Flake.Inputs.{
  sp_module_input_prefix, strip_prefix, add_prefix, Input, service_input, FlakeServiceManager,
  add_service, add_input, split_inputs, join_inputs,
}

abbrev key_of : String → String
key_of name = add_prefix sp_module_input_prefix name

strip_prefix-key_of :
    (name : String) → strip_prefix sp_module_input_prefix (key_of name) ≡ some name
unfolding strip_prefix add_prefix
strip_prefix-key_of name = refl

key_of-injective : (a b : String) → key_of a ≡ key_of b → a ≡ b
key_of-injective a b h = some-injective a b (
    sym (strip_prefix-key_of a)
    ∙ ap (strip_prefix sp_module_input_prefix) h
    ∙ strip_prefix-key_of b)

-- No key has the prefix of a service.
abbrev pub IsPlain : Dict Input → Type 0
IsPlain d = AllEntries (λ key value. strip_prefix sp_module_input_prefix key ≡ none) d

lookup-IsPlain : (name : String) (d : Dict Input) → IsPlain d → lookup (key_of name) d ≡ none
unfolding lookup
lookup-IsPlain name [] plain = refl
lookup-IsPlain name ((key, value) ∷ d) plain = elim (Bool-cases (str_eq key (key_of name))) [
  | inl same ↦
      let found =
        ap (strip_prefix sp_module_input_prefix) ((eq_iff key (key_of name)).0 same)
        ∙ strip_prefix-key_of name in
      absurd (ground (arith, plain.0, found))
  | inr unlike ↦ rw unlike (lookup-IsPlain name d plain.1)
]

-- The entries that the services make.
abbrev entries_of : Dict String → Dict Input
entries_of [] = []
entries_of ((name, url) ∷ services) = (key_of name, service_input url) ∷ entries_of services

lookup-append_one :
    (k j : String) (v : Input) (d : Dict Input)
    → lookup k d ≡ none
    → str_eq j k ≡ false
    → lookup k (d ++ ((j, v) ∷ [])) ≡ none
unfolding lookup
lookup-append_one k j v [] missing unlike = rw unlike refl
lookup-append_one k j v ((i, w) ∷ d) missing unlike = ground (arith, lookup-append_one k j v d)

-- None of the services stands in the inputs.
abbrev AreFresh : Dict Input → Dict String → Type 0
AreFresh d services = AllEntries (λ name url. lookup (key_of name) d ≡ none) services

append-AreFresh :
    (name url : String) (d : Dict Input) (services : Dict String)
    → lookup name services ≡ none
    → AreFresh d services
    → AreFresh (d ++ ((key_of name, service_input url) ∷ [])) services
unfolding lookup
append-AreFresh name url d [] missing fresh = tt
append-AreFresh name url d ((n, u) ∷ services) missing fresh = elim (Bool-cases (str_eq n name)) [
  | inl same ↦ absurd (ground (arith, missing, same))
  | inr unlike ↦ (
    lookup-append_one (key_of n) (key_of name) (service_input url) d fresh.0
        (elim (Bool-cases (str_eq (key_of name) (key_of n))) [
          | inl same ↦
              let equal = key_of-injective name n ((eq_iff (key_of name) (key_of n)).0 same) in
              absurd (ground (arith, eq_iff n name, sym equal, unlike))
          | inr other ↦ other
        ]),
    append-AreFresh name url d services (rw unlike at missing) fresh.1,
  )
]

join_inputs-append :
    (services : Dict String) (d : Dict Input)
    → NodupKeys services
    → AreFresh d services
    → join_inputs services d ≡ d ++ entries_of services
unfolding join_inputs
join_inputs-append [] d unique fresh = sym (append-nil d)
join_inputs-append ((name, url) ∷ services) d unique fresh =
    ap (join_inputs services) (insert_new (key_of name) (service_input url) d fresh.0)
    ∙ join_inputs-append services (d ++ ((key_of name, service_input url) ∷ [])) unique.1
        (append-AreFresh name url d services unique.0 fresh.1)
    ∙ append_assoc d ((key_of name, service_input url) ∷ []) (entries_of services)

IsPlain-AreFresh : (d : Dict Input) (services : Dict String) → IsPlain d → AreFresh d services
IsPlain-AreFresh d [] plain = tt
IsPlain-AreFresh d ((name, url) ∷ services) plain =
    (lookup-IsPlain name d plain, IsPlain-AreFresh d services plain)

split_inputs-entries_of :
    (services : Dict String)
    → split_inputs (entries_of services) ≡ record { inputs = []; services = services }
unfolding split_inputs strip_prefix add_prefix
split_inputs-entries_of [] = refl
split_inputs-entries_of ((name, url) ∷ services) =
    ap (add_service name url) (split_inputs-entries_of services)

split_inputs-append :
    (d : Dict Input) (services : Dict String)
    → IsPlain d
    → split_inputs (d ++ entries_of services) ≡ record { inputs = d; services = services }
unfolding split_inputs
split_inputs-append [] services plain = split_inputs-entries_of services
split_inputs-append ((key, value) ∷ d) services plain =
    rw (plain.0) (ap (add_input key value) (split_inputs-append d services plain.1))

-- Inputs and services that were joined are split into the same inputs and services again, where no
-- input has the prefix of a service and no service stands twice.
pub split-join_inputs :
    (m : FlakeServiceManager)
    → IsPlain m.inputs
    → NodupKeys m.services
    → split_inputs (join_inputs m.services m.inputs) ≡ m
split-join_inputs m plain unique =
    ap split_inputs
      (join_inputs-append m.services m.inputs unique (IsPlain-AreFresh m.inputs m.services plain))
    ∙ split_inputs-append m.inputs m.services plain
