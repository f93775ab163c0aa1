-- ===== src/Registry/Templates.antt =====
-- The definitions of the templated services and their cache: `get_templated_service` and
-- `get_templated_services` of selfprivacy_api/services/__init__.py. `TemplatedService(id, data)` is
-- a parameter; a task that loads a definition is a call, in the order of the folder.
use selfprivacy_api.Base.{
  ℕ, String, Bool, ◌&&◌, Option, none, some, List, [], ◌∷◌, str_mem, ◌==◌, if◌then◌else◌, Dict,
  lookup, insert, Result, ok, err,
}

-- `(st_mtime_ns, st_size, st_ino)`
pub record Stat : Type 0 where
  pub modified : ℕ
  pub size : ℕ
  pub inode : ℕ

abbrev pub stat_eq : Stat → Stat → Bool
stat_eq a b = a.modified == b.modified && a.size == b.size && a.inode == b.inode

-- A file of `SP_MODULES_DEFINITIONS_PATH`
pub record Definition : Type 0 where
  pub stat : Stat
  pub content : String

abbrev pub not_found : String
not_found = "Service definition not found"

-- `_templated_service_cache`
abbrev pub Cache : Type 0 → Type 0
Cache S = Dict (Stat × S)

abbrev pub file_names : Dict Definition → List String
file_names [] = []
file_names ((name, _) ∷ files) = name ∷ file_names files

module _ {S : Type 0} where
  abbrev pub stored : String → Stat → Result String S → Cache S → Result String S × Cache S
  stored id key (err e) cache = (err e, cache)
  stored id key (ok service) cache = (ok service, insert id (key, service) cache)

  -- What follows the look-up in the cache.
  abbrev pub cached_or_parsed :
      (parse : (id content : String) → Result String S)
      → String
      → Definition
      → Option (Stat × S)
      → Cache S
      → Result String S × Cache S
  cached_or_parsed parse id file none cache = stored id file.stat (parse id file.content) cache
  cached_or_parsed parse id file (some (key, service)) cache =
      if stat_eq key file.stat
      then (ok service, cache)
      else stored id file.stat (parse id file.content) cache

  abbrev pub with_file :
      (parse : (id content : String) → Result String S)
      → String
      → Option Definition
      → Cache S
      → Result String S × Cache S
  with_file parse id none cache = (err not_found, cache)
  with_file parse id (some file) cache = cached_or_parsed parse id file (lookup id cache) cache

  -- `get_templated_service`
  unfoldable pub get_templated_service :
      (parse : (id content : String) → Result String S)
      → Dict Definition
      → String
      → Cache S
      → Result String S × Cache S
  unfolding lookup insert
  get_templated_service parse files id cache = with_file parse id (lookup id files) cache

  -- `load_service`: what raises is logged and left out.
  abbrev pub loaded_too : Result String S → List S → List S
  loaded_too (ok service) services = service ∷ services
  loaded_too (err e) services = services

  -- The names of the folder that are not ignored
  unfoldable pub load_services :
      (parse : (id content : String) → Result String S)
      → Dict Definition
      → (ignored names : List String) → Cache S
      → List S × Cache S
  unfolding get_templated_service str_mem
  load_services parse files ignored [] cache = ([], cache)
  load_services parse files ignored (name ∷ names) cache =
      let skipped = str_mem name ignored in
      let q = get_templated_service parse files name cache in
      let rest = load_services parse files ignored names (if skipped then cache else q.1) in
      (if skipped then rest.0 else loaded_too q.0 rest.0, rest.1)

  -- `get_templated_services`; the folder may be missing.
  unfoldable pub get_templated_services :
      (parse : (id content : String) → Result String S)
      → Option (Dict Definition)
      → (ignored_services : List String) → Cache S
      → List S × Cache S
  unfolding load_services
  get_templated_services parse none ignored_services cache = ([], cache)
  get_templated_services parse (some files) ignored_services cache =
      load_services parse files ignored_services (file_names files) cache
