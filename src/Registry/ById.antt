-- ===== src/Registry/ById.antt =====
-- The service of an id is the one that the listing has.
use selfprivacy_api.Registry.Lookup.{
  find_service-ids, find_service-load_all, find_service-append, answer_of, first,
}
use selfprivacy_api.Registry.Fresh.{
  load_services-load_all, load, parsed, with_file-Current, Current,
}
use selfprivacy_api.Registry.Templates.{
  load_services, get_templated_services, Cache, with_file, file_names, Definition,
}
use selfprivacy_api.Registry.Services.{
  service_ids, templated_or_suggested, with_dummies, list_services, get_services, remote_services,
  found_in, as_some, beyond_hardcoded, get_service_by_id, lift, Globals, Service, Site,
  find_service,
}
use mathlib.Core.Option.{some-injective}
use selfprivacy_api.Base.{
  Option-cases, sym, ◌∙◌, ◌&&◌, not, if◌then◌else◌, ◌++◌, pure, str_eq, Bool-cases, gets, ◌⊎◌,
  is_some, ◌>>=◌, Bool, Dict, Option, String, lookup, ◌≢◌, List, Result, str_mem, refl, ◌≡◌, [],
  inl, inr, ok, err, none, some, true, false, ◌∷◌, ap,
}

some-inj : {a b : Service} → ◌≡◌ {A = Option Service} (some a) (some b) → a ≡ b
some-inj {a} {b} h = some-injective a b h

none-ne-some : (s : Service) → ◌≢◌ {A = Option Service} none (some s)
none-ne-some s h = cc

value_or : List Service → Result String (List Service) → List Service
value_or xs (ok ys) = ys
value_or xs (err _) = xs

-- What the end of the listing gives.
listed :
    (r : Result String (List Service)) (t services : List Service) (g : Globals)
    → ((lift r >>= λ (remote : List Service).
          (gets (λ (g : Globals). g.hardcoded) >>= λ (hardcoded : List Service).
          pure (hardcoded ++ t ++ remote)))
        g).0
      ≡ ok services
    → (rs : List Service) × (r ≡ ok rs) × (g.hardcoded ++ t ++ rs ≡ services)
unfolding value_or
listed (ok rs) t services g h = (rs, refl, ap (value_or []) h)
listed (err e) t services g h = cc

str_mem-file_names :
    (id : String) (files : Dict Definition)
    → str_mem id (file_names files) ≡ is_some (lookup id files)
unfolding str_mem lookup
str_mem-file_names id [] = refl
str_mem-file_names id ((name, file) ∷ files) = elim (Bool-cases (str_eq name id)) [
  | inl same ↦ rw same refl
  | inr unlike ↦ rw unlike (str_mem-file_names id files)
]

remote-found :
    (exclude exists : Bool) (suggested : Result String (List Service)) (rs : List Service)
    (id : String) (s : Service)
    → (if not exclude && exists then suggested else ok []) ≡ ok rs
    → find_service id rs ≡ some s
    → found_in id suggested ≡ ok (some s)
unfolding find_service value_or
remote-found false true (ok xs) rs id s h f = ap ok (ap (find_service id) (ap (value_or []) h) ∙ f)
remote-found false true (err e) rs id s h f = cc
remote-found false false suggested rs id s h f =
    absurd (none-ne-some s (ap (find_service id) (ap (value_or []) h) ∙ f))
remote-found true exists suggested rs id s h f =
    absurd (none-ne-some s (ap (find_service id) (ap (value_or []) h) ∙ f))

wrapped : Result String Service → Result String (Option Service)
wrapped (ok s) = ok (some s)
wrapped (err e) = err e

as_some-wrapped :
    (q : Result String Service × Cache Service) (g : Globals) → (as_some q g).0 ≡ wrapped q.0
unfolding wrapped
as_some-wrapped (ok s, cache) g = refl
as_some-wrapped (err e, cache) g = refl

module _ (site0 : Site) (files : Dict Definition) where
  -- The server outside of tests, with a folder of definitions
  abbrev pub live : Site
  live = record site0 { dummy_services = []; test_flags = []; files = some files }

  module _
      (named : (id : String) (file : Definition) (s : Service)
        → lookup id files ≡ some file
        → site0.parse id file.content ≡ ok s
        → s.id ≡ id)
      (g : Globals) (current : Current site0.parse files g.cache) where
    -- What the look-up gives: the service, or the exception of a definition that cannot be parsed.
    abbrev pub Answers : String → Service → Type 0
    Answers id s =
        ((get_service_by_id live id g).0 ≡ ok (some s))
        ⊎ ((e : String) × (file : Definition) × (lookup id files ≡ some file)
            × (site0.parse id file.content ≡ err e)
            × ((get_service_by_id live id g).0 ≡ err e))

    by_hardcoded :
        (id : String) (o : Option Service)
        → find_service id g.hardcoded ≡ o
        → get_service_by_id live id g ≡ beyond_hardcoded live id o g
    unfolding get_service_by_id find_service str_mem
    by_hardcoded id o e = ap (λ o. beyond_hardcoded live id o g) e

    ended :
        (id : String) (file : Definition) (r : Result String Service) (s : Service)
        → lookup id files ≡ some file
        → site0.parse id file.content ≡ r
        → (get_service_by_id live id g).0 ≡ wrapped r
        → ((s' : Service) → r ≡ ok s' → s' ≡ s)
        → Answers id s
    unfolding wrapped
    ended id file (ok s') s here h run same = inl (run ∙ ap (λ x. ok (some x)) (same s' refl))
    ended id file (err e) s here h run same = inr (e, file, here, h, run)

    by_definition :
        (id : String) (file : Definition) (r : Result String Service) (s : Service)
        → lookup id files ≡ some file
        → site0.parse id file.content ≡ r
        → (get_service_by_id live id g).0
          ≡ (as_some (with_file site0.parse id (some file) g.cache) g).0
        → ((s' : Service) → r ≡ ok s' → s' ≡ s)
        → Answers id s
    by_definition id file r s here h run same =
        let answer = (with_file-Current site0.parse files id (some file) g.cache here current).0 in
        let whole =
          run
          ∙ as_some-wrapped (with_file site0.parse id (some file) g.cache) g
          ∙ ap wrapped (answer ∙ ap (parsed site0.parse id) here ∙ h) in
        ended id file r s here h whole same

    beyond :
        (id : String) (o : Option Definition) (s : Service) (exclude_remote : Bool)
        (rs : List Service)
        → lookup id files ≡ o
        → find_service id g.hardcoded ≡ none
        → remote_services live exclude_remote ≡ ok rs
        → first
            (if str_mem id (file_names files) then answer_of (load site0.parse files id) else none)
            (find_service id rs)
          ≡ some s
        → Answers id s
    beyond id none s exclude_remote rs here h remote f =
        let absent = str_mem-file_names id files ∙ ap is_some here in
        let run =
          ap (λ (q : Result String (Option Service) × Globals). q.0) (by_hardcoded id none h)
          ∙ ap (λ o. (templated_or_suggested live id o g).0) here in
        inl (
          run
          ∙ remote-found exclude_remote site0.suggested_exists site0.suggested rs id s remote
              (rw absent at f))
    beyond id (some file) s exclude_remote rs here h remote f =
        let present = str_mem-file_names id files ∙ ap is_some here in
        let run =
          ap (λ (q : Result String (Option Service) × Globals). q.0) (by_hardcoded id none h)
          ∙ ap (λ o. (templated_or_suggested live id o g).0) here in
        by_definition id file (site0.parse id file.content) s here refl run (λ s' parses. some-inj (
          sym (
            ap (λ r. first (answer_of r) (find_service id rs))
              (ap (parsed site0.parse id) here ∙ parses))
          ∙ (rw present at f)))

    -- Outside of tests, where the cache of the definitions is up to date and each file of the folder
    -- that can be parsed has its own name as the id of its service: if the listing of the services
    -- returns and has a service with an id, then looking the id up returns the first service of
    -- the listing with this id, whether it is hardcoded, templated or remote; or there is a
    -- definition with this id that cannot be parsed, and looking it up raises the exception of
    -- the parser.
    pub get_service_by_id-listed :
        (exclude_remote : Bool) (services : List Service) (id : String) (s : Service)
        → (get_services live exclude_remote g).0 ≡ ok services
        → find_service id services ≡ some s
        → Answers id s
    unfolding get_services list_services with_dummies str_mem get_templated_services
    get_service_by_id-listed exclude_remote services id s run f =
        let names = file_names files in
        let ids = service_ids g.hardcoded in
        let q = load_services site0.parse files ids names g.cache in
        let (rs, remote, whole) =
          listed (remote_services live exclude_remote) q.0 services (record g { cache = q.1 })
            run in
        let parts =
          find_service-append id (g.hardcoded ++ q.0) rs
          ∙ ap (λ o. first o (find_service id rs)) (find_service-append id g.hardcoded q.0) in
        let found = sym parts ∙ ap (find_service id) whole ∙ f in
        elim (Option-cases (find_service id g.hardcoded)) [
          | inl h ↦
              let templated_found =
                ap (find_service id)
                  (load_services-load_all site0.parse files ids names g.cache current).0
                ∙ find_service-load_all site0.parse files named id ids names
                    (find_service-ids id g.hardcoded h) in
              beyond id (lookup id files) s exclude_remote rs refl h remote
                (ap (λ o. first o (find_service id rs)) (sym templated_found) ∙ (rw h at found))
          | inr (s', h) ↦ inl (
              ap (λ (q : Result String (Option Service) × Globals). q.0)
                (by_hardcoded id (some s') h)
              ∙ ap ok (rw h at found))
        ]
