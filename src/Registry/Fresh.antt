-- ===== src/Registry/Fresh.antt =====
-- The cache of the templated services answers as reading the definition again would.
use mathlib.Core.Bool.{false≢true}
use mathlib.Core.Path.{subst}
use selfprivacy_api.Registry.Templates.{
  loaded_too, cached_or_parsed, not_found, stat_eq, stored, with_file, Cache, Stat,
  get_templated_service, load_services, Definition,
}
use selfprivacy_api.Base.{
  ◌⊎◌, ap, false, if◌then◌else◌, sym, lookup-AllEntries, Bool-cases, insert-AllEntries, ◌∙◌,
  AllEntries, List, Option, lookup, str_mem, Dict, Result, String, refl, ◌≡◌, [], inl, inr, ok, err,
  none, some, true, ◌∷◌,
}

abbrev pub parsed :
    {S : Type 0}
    → (parse : (id content : String) → Result String S) → String
    → Option Definition
    → Result String S
parsed parse id none = err not_found
parsed parse id (some file) = parse id file.content

-- A definition that is read and parsed anew
abbrev pub load :
    {S : Type 0}
    → (parse : (id content : String) → Result String S) → Dict Definition
    → String
    → Result String S
load parse files id = parsed parse id (lookup id files)

module _ {S : Type 0} (parse : (id content : String) → Result String S)
    (files : Dict Definition) where
  -- The file has another stat now, or what is kept is what it parses to.
  abbrev MatchesFile : String → Stat × S → Option Definition → Type 0
  MatchesFile id kept none = Unit
  MatchesFile id kept (some file) =
      (stat_eq kept.0 file.stat ≡ false) ⊎ (parse id file.content ≡ ok kept.1)

  abbrev pub UpToDate : String → Stat × S → Type 0
  UpToDate id kept = MatchesFile id kept (lookup id files)

  abbrev pub Current : Cache S → Type 0
  Current cache = AllEntries UpToDate cache

  stored-Current :
      (id : String) (file : Definition) (r : Result String S) (cache : Cache S)
      → lookup id files ≡ some file
      → parse id file.content ≡ r
      → Current cache
      → ((stored id file.stat r cache).0 ≡ r) × Current (stored id file.stat r cache).1
  stored-Current id file (err e) cache here h c = (refl, c)
  stored-Current id file (ok service) cache here h c = (
    refl,
    insert-AllEntries UpToDate id (file.stat, service) cache
        (subst (MatchesFile id (file.stat, service)) (sym here) (inr h)) c,
  )

  same_stat :
      (id : String) (kept : Stat × S) (file : Definition)
      → MatchesFile id kept (some file)
      → stat_eq kept.0 file.stat ≡ true
      → parse id file.content ≡ ok kept.1
  same_stat id kept file (inl unlike) same = absurd (false≢true (sym unlike ∙ same))
  same_stat id kept file (inr h) same = h

  cached_or_parsed-Current :
      (id : String) (file : Definition) (o : Option (Stat × S)) (cache : Cache S)
      → lookup id files ≡ some file
      → lookup id cache ≡ o
      → Current cache
      → ((cached_or_parsed parse id file o cache).0 ≡ parse id file.content)
        × Current (cached_or_parsed parse id file o cache).1
  cached_or_parsed-Current id file none cache here e c =
      stored-Current id file (parse id file.content) cache here refl c
  cached_or_parsed-Current id file (some (key, service)) cache here e c =
      elim (Bool-cases (stat_eq key file.stat)) [
        | inl same ↦
            let kept =
              subst (MatchesFile id (key, service)) here
                (lookup-AllEntries UpToDate id (key, service) cache c e) in
            rw same (sym (same_stat id (key, service) file kept same), c)
        | inr changed ↦
            rw changed (stored-Current id file (parse id file.content) cache here refl c)
      ]

  pub with_file-Current :
      (id : String) (o : Option Definition) (cache : Cache S)
      → lookup id files ≡ o
      → Current cache
      → ((with_file parse id o cache).0 ≡ load parse files id)
        × Current (with_file parse id o cache).1
  with_file-Current id none cache e c = (sym (ap (parsed parse id) e), c)
  with_file-Current id (some file) cache e c =
      let (answer, later) = cached_or_parsed-Current id file (lookup id cache) cache e refl c in
      (answer ∙ sym (ap (parsed parse id) e), later)

  -- Where what is kept with the present stat of a file is what the file parses to, looking a
  -- service up gives what reading and parsing its definition anew gives, errors included, and the
  -- cache keeps that property.
  pub get_templated_service-load :
      (id : String) (cache : Cache S)
      → Current cache
      → ((get_templated_service parse files id cache).0 ≡ load parse files id)
        × Current (get_templated_service parse files id cache).1
  unfolding get_templated_service
  get_templated_service-load id cache c = with_file-Current id (lookup id files) cache refl c

  -- The services of the names that are not ignored, read anew
  unfoldable pub load_all : (ignored names : List String) → List S
  unfolding str_mem lookup
  load_all ignored [] = []
  load_all ignored (name ∷ names) =
      let rest = load_all ignored names in
      if str_mem name ignored then rest else loaded_too (load parse files name) rest

  pub load_services-load_all :
      (ignored names : List String) (cache : Cache S)
      → Current cache
      → ((load_services parse files ignored names cache).0 ≡ load_all ignored names)
        × Current (load_services parse files ignored names cache).1
  unfolding load_services load_all
  load_services-load_all ignored [] cache c = (refl, c)
  load_services-load_all ignored (name ∷ names) cache c = elim (Bool-cases (str_mem name ignored)) [
    | inl skipped ↦ rw skipped (load_services-load_all ignored names cache c)
    | inr wanted ↦
        let (answer, c1) = get_templated_service-load name cache c in
        let (rest, c2) =
          load_services-load_all ignored names (get_templated_service parse files name cache).1
            c1 in
        rw wanted (rw (answer, rest) refl, c2)
  ]
