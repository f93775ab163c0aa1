-- ===== src/Registry/Services.antt =====
-- `ServiceManager` and `get_services` of selfprivacy_api/services/__init__.py. `request_memoized`,
-- which repeats an answer inside one request, is left out.
use selfprivacy_api.Registry.Templates.{with_file, Cache, Definition, get_templated_services}
use Prim.Native.String.{◌++◌ as str_append}
use selfprivacy_api.Base.{
  ℕ, String, Bool, true, false, not, ◌&&◌, Option, none, some, List, [], ◌∷◌, ◌++◌, map, keep,
  str_mem, str_eq, if◌then◌else◌, is_some, Dict, lookup, insert, Result, ok, err, Action, pure,
  gets, modify, ◌>>=◌, ◌>>◌,
}

pub record ServiceDnsRecord : Type 0 where
  pub record_type : String
  pub name : String
  pub content : String
  pub ttl : ℕ
  pub display_name : String
  pub priority : Option ℕ

-- What the methods of a service answer.
pub record Service : Type 0 where
  pub id : String
  pub is_enabled : Bool
  pub url : Option String
  pub drive : String
  pub get_dns_records : (ip4 : String) → (ip6 : Option String) → List ServiceDnsRecord

-- `files` is none where the folder of the definitions is missing. `suggested_exists` is whether
-- there is `SP_SUGGESTED_MODULES_PATH`, `suggested` what `SuggestedServices.get` gives.
pub record Site : Type 0 where
  pub api : Service
  pub dummy_services : List Service
  pub test_flags : List String
  pub files : Option (Dict Definition)
  pub parse : (id content : String) → Result String Service
  pub suggested_exists : Bool
  pub suggested : Result String (List Service)

-- `HARDCODED_SERVICES` and `_templated_service_cache`, the two globals that change
pub record Globals : Type 0 where
  pub hardcoded : List Service
  pub cache : Cache Service

abbrev pub Ask : Type 0 → Type 0
Ask A = Action Globals String A

abbrev pub service_ids : List Service → List String
service_ids services = map (λ (s : Service). s.id) services

abbrev pub lift : {A : Type 0} → Result String A → Ask A
lift r g = (r, g)

-- The remote services, which are asked for only if they are wanted and their file is there.
abbrev pub remote_services : Site → (exclude_remote : Bool) → Result String (List Service)
remote_services site exclude_remote =
    if not exclude_remote && site.suggested_exists then site.suggested else ok []

abbrev pub extended : List Service → Globals → Globals
extended [] g = g
extended (d ∷ ds) g = record g { hardcoded = g.hardcoded ++ (d ∷ ds) }

-- The addition in place changes the global list.
unfoldable pub with_dummies : Site → Globals → Globals
with_dummies site g = extended site.dummy_services g

abbrev pub templated : Site → Ask (List Service)
templated site g =
    let q = get_templated_services site.parse site.files (service_ids g.hardcoded) g.cache in
    (ok q.0, record g { cache = q.1 })

-- `_get_services` without the flags of the tests
unfoldable pub list_services : Site → (exclude_remote : Bool) → Ask (List Service)
unfolding with_dummies get_templated_services
list_services site exclude_remote = do
  modify (with_dummies site)
  templated_services ← templated site
  remote ← lift (remote_services site exclude_remote)
  hardcoded ← gets (λ g. g.hardcoded)
  pure (hardcoded ++ templated_services ++ remote)

-- `get_services`
unfoldable pub get_services : Site → (exclude_remote : Bool) → Ask (List Service)
unfolding list_services str_mem
get_services site exclude_remote =
    if str_mem "ONLY_DUMMY_SERVICE" site.test_flags
    then pure site.dummy_services
    else if str_mem "DUMMY_SERVICE_AND_API" site.test_flags
    then pure (site.dummy_services ++ (site.api ∷ []))
    else list_services site exclude_remote

-- The first service of a list with an id
unfoldable pub find_service : String → List Service → Option Service
find_service id [] = none
find_service id (s ∷ services) =
    let rest = find_service id services in if str_eq s.id id then some s else rest

abbrev pub as_some :
    Result String Service × Cache Service → Globals → Result String (Option Service) × Globals
as_some (ok s, cache) g = (ok (some s), record g { cache = cache })
as_some (err e, cache) g = (err e, record g { cache = cache })

abbrev pub found_in : String → Result String (List Service) → Result String (Option Service)
found_in id (ok services) = ok (find_service id services)
found_in id (err e) = err e

-- `exists(join(SP_MODULES_DEFINITIONS_PATH, service_id))` for an id without a slash
abbrev pub definition_of : Option (Dict Definition) → String → Option Definition
definition_of none id = none
definition_of (some files) id = lookup id files

-- What follows the hardcoded services.
abbrev pub templated_or_suggested : Site → String → Option Definition → Ask (Option Service)
templated_or_suggested site service_id (some file) g =
    as_some (with_file site.parse service_id (some file) g.cache) g
templated_or_suggested site service_id none g = (found_in service_id site.suggested, g)

abbrev pub beyond_hardcoded : Site → String → Option Service → Ask (Option Service)
beyond_hardcoded site service_id (some s) g = (ok (some s), g)
beyond_hardcoded site service_id none g =
    templated_or_suggested site service_id (definition_of site.files service_id) g

-- `_get_service_by_id` from the flags of the tests on
abbrev pub beyond_dummies : Site → String → Option Service → Ask (Option Service)
beyond_dummies site service_id (some s) g = (ok (some s), g)
beyond_dummies site service_id none g =
    if str_mem "ONLY_DUMMY_SERVICE" site.test_flags
    then (ok none, g)
    else if str_mem "DUMMY_SERVICE_AND_API" site.test_flags
    then (ok (if str_eq service_id "selfprivacy-api" then some site.api else none), g)
    else beyond_hardcoded site service_id (find_service service_id g.hardcoded) g

-- `get_service_by_id`
unfoldable pub get_service_by_id : Site → (service_id : String) → Ask (Option Service)
unfolding find_service str_mem lookup insert
get_service_by_id site service_id =
    beyond_dummies site service_id (find_service service_id site.dummy_services)

-- `get_enabled_services`, `get_enabled_services_with_urls`, `get_disabled_services` and
-- `get_services_by_location`
unfoldable pub get_enabled_services : Site → Ask (List Service)
unfolding get_services
get_enabled_services site = do
  services ← get_services site false
  pure (keep (λ s. s.is_enabled) services)

unfoldable pub get_enabled_services_with_urls : Site → Ask (List Service)
unfolding get_services
get_enabled_services_with_urls site = do
  services ← get_services site true
  pure (keep (λ s. s.is_enabled && is_some s.url) services)

unfoldable pub get_disabled_services : Site → Ask (List Service)
unfolding get_services
get_disabled_services site = do
  services ← get_services site false
  pure (keep (λ s. not s.is_enabled) services)

unfoldable pub get_services_by_location : Site → (location : String) → Ask (List Service)
unfolding get_services
get_services_by_location site location = do
  services ← get_services site true
  pure (keep (λ s. str_eq s.drive location) services)

abbrev pub all_records :
    (ip4 : String) → (ip6 : Option String) → List Service → List ServiceDnsRecord
all_records ip4 ip6 [] = []
all_records ip4 ip6 (s ∷ services) = s.get_dns_records ip4 ip6 ++ all_records ip4 ip6 services

-- The CAA record is left out if the file with the account cannot be read.
abbrev pub caa_record :
    (domain : String) → (account_uri : Result String String) → List ServiceDnsRecord
caa_record domain (err e) = []
caa_record domain (ok uri) =
    record {
      record_type = "CAA";
      name = domain;
      content = str_append "128 issue \"letsencrypt.org;accounturi=" (str_append uri "\"");
      ttl = 3600;
      display_name = "CAA record";
      priority = none;
    }
    ∷ []

-- `get_all_required_dns_records`
unfoldable pub get_all_required_dns_records :
    Site
    → (ip4 : String) → (ip6 : Option String) → (domain : String)
    → (account_uri : Result String String) → Ask (List ServiceDnsRecord)
unfolding get_enabled_services
get_all_required_dns_records site ip4 ip6 domain account_uri = do
  services ← get_enabled_services site
  pure (
      record {
        record_type = "A";
        name = "auth";
        content = ip4;
        ttl = 3600;
        display_name = "Record for Kanidm";
        priority = none;
      }
      ∷ (caa_record domain account_uri ++ all_records ip4 ip6 services))
