-- ===== src/Registry/Lookup.antt =====
-- Looking up a service by its id, and listing the services.
use mathlib.Core.Bool.{false≢true}
use selfprivacy_api.Registry.Fresh.{load, load_all, parsed}
use selfprivacy_api.Registry.Templates.{loaded_too, Definition}
use selfprivacy_api.Registry.Services.{service_ids, Service, find_service}
use selfprivacy_api.Base.{
  Bool, eq_iff, ◌∙◌, sym, lookup, if◌then◌else◌, str_eq, Bool-cases, ◌≢◌, Dict, ◌++◌, List, str_mem,
  Option, Result, String, refl, ◌≡◌, [], inl, inr, ok, err, none, some, true, false, ◌∷◌, ap,
}

abbrev pub first : {S : Type 0} → Option S → Option S → Option S
first (some s) o = some s
first none o = o

pub find_service-append :
    (id : String) (xs ys : List Service)
    → find_service id (xs ++ ys) ≡ first (find_service id xs) (find_service id ys)
unfolding find_service
find_service-append id [] ys = refl
find_service-append id (x ∷ xs) ys = elim (Bool-cases (str_eq x.id id)) [
  | inl same ↦ rw same refl
  | inr unlike ↦ rw unlike (find_service-append id xs ys)
]

-- A hardcoded service that is not found has an id that the folder is not searched for.
pub find_service-ids :
    (id : String) (services : List Service)
    → find_service id services ≡ none
    → str_mem id (service_ids services) ≡ false
unfolding find_service str_mem
find_service-ids id [] h = refl
find_service-ids id (s ∷ services) h = elim (Bool-cases (str_eq s.id id)) [
  | inl same ↦ absurd (some-ne-none s (rw same at h))
  | inr unlike ↦ rw unlike (find_service-ids id services (rw unlike at h))
]
  where
    some-ne-none : (s : Service) → ◌≢◌ {A = Option Service} (some s) none
    some-ne-none s e = cc

abbrev pub answer_of : Result String Service → Option Service
answer_of (ok s) = some s
answer_of (err e) = none

first_twice : (o : Option Service) (b : Bool) → first o (if b then o else none) ≡ o
first_twice none true = refl
first_twice none false = refl
first_twice (some s) b = refl

module _ (parse : (id content : String) → Result String Service) (files : Dict Definition)
    (named : (id : String) (file : Definition) (s : Service)
      → lookup id files ≡ some file
      → parse id file.content ≡ ok s
      → s.id ≡ id) where
  parsed-id :
      (id : String) (o : Option Definition) (s : Service)
      → lookup id files ≡ o
      → parsed parse id o ≡ ok s
      → s.id ≡ id
  parsed-id id none s here h = cc
  parsed-id id (some file) s here h = named id file s here h

  find_loaded :
      (id name : String) (r : Result String Service) (rest : List Service)
      → load parse files name ≡ r
      → find_service id (loaded_too r rest) ≡ (
          if str_eq name id
          then first (answer_of r) (find_service id rest)
          else find_service id rest)
  unfolding find_service
  find_loaded id name (ok s) rest h =
      rw (parsed-id name (lookup name files) s refl h)
        (elim (Bool-cases (str_eq name id)) [ inl e ↦ rw e refl | inr e ↦ rw e refl ])
  find_loaded id name (err e) rest h = elim (Bool-cases (str_eq name id)) [
    | inl same ↦ rw same refl
    | inr unlike ↦ rw unlike refl
  ]

  -- In the services of the folder, a name finds what its definition gives.
  pub find_service-load_all :
      (id : String) (ignored names : List String)
      → str_mem id ignored ≡ false
      → find_service id (load_all parse files ignored names)
        ≡ (if str_mem id names then answer_of (load parse files id) else none)
  unfolding load_all str_mem find_service
  find_service-load_all id ignored [] fresh = refl
  find_service-load_all id ignored (name ∷ names) fresh =
      let later = find_service-load_all id ignored names fresh in
      elim (Bool-cases (str_mem name ignored)) [
        | inl skipped ↦ elim (Bool-cases (str_eq name id)) [
          | inl same ↦ absurd (
              false≢true
                (sym fresh ∙ ap (λ n. str_mem n ignored) (sym ((eq_iff name id).0 same)) ∙ skipped))
          | inr unlike ↦ rw (skipped, unlike) later
        ]
        | inr wanted ↦
            let rest = load_all parse files ignored names in
            let found = find_loaded id name (load parse files name) rest refl in
            elim (Bool-cases (str_eq name id)) [
              | inl same ↦
                  rw (wanted, same)
                    (found
                      ∙ (rw same (
                          ap (first (answer_of (load parse files name))) later
                          ∙ ap
                              (λ n. first (answer_of (load parse files n)) (
                                if str_mem id names then answer_of (load parse files id) else none))
                              ((eq_iff name id).0 same)
                          ∙ first_twice (answer_of (load parse files id)) (str_mem id names))))
              | inr unlike ↦ rw (wanted, unlike) (found ∙ (rw unlike later))
            ]
      ]
