-- ===== src/Registry/Tests.antt =====
-- The theorems on the registry at concrete inputs.
use selfprivacy_api.Registry.Fresh.{get_templated_service-load, Current, load}
use selfprivacy_api.Registry.ById.{get_service_by_id-listed, Answers}
use selfprivacy_api.Registry.Templates.{Definition, Stat, get_templated_service}
use selfprivacy_api.Registry.Services.{find_service, get_services, Service, Globals, Site}
use selfprivacy_api.Base.{
  lookup-AllEntries, if◌then◌else◌, sym, str_eq, Result, Dict, List, String, lookup, ℕ, refl, ◌≡◌,
  [], inl, ok, err, none, some, true, false, ◌∷◌, ap,
}

abbrev service_of : String → Service
service_of id = record {
  id = id;
  is_enabled = true;
  url = none;
  drive = "sda1";
  get_dns_records = λ ip4 ip6. [];
}

-- A definition is read as the service whose id it names; "broken" cannot be parsed.
abbrev parse_definition : String → String → Result String Service
parse_definition id content =
    if str_eq content "broken" then err "validation error" else ok (service_of content)

abbrev stat_of : ℕ → Stat
stat_of n = record { modified = n; size = 10; inode = n }

abbrev definitions : Dict Definition
definitions =
    ("gitea", record { stat = stat_of 1; content = "gitea" })
    ∷ ("matrix", record { stat = stat_of 2; content = "broken" })
    ∷ []

-- What a definition at a name has to be
abbrev Named : String → Definition → Type 0
Named name file = (s : Service) → parse_definition name file.content ≡ ok s → s.id ≡ name

name_or : String → Result String Service → String
name_or name (ok s) = s.id
name_or name (err e) = name

definitions-named :
    (id : String) (file : Definition) (s : Service)
    → lookup id definitions ≡ some file
    → parse_definition id file.content ≡ ok s
    → s.id ≡ id
unfolding name_or
definitions-named id file s here =
    lookup-AllEntries Named id file definitions
      (λ s h. sym (ap (name_or "gitea") h), (λ s h. sym (ap (name_or "matrix") h), tt)) here s

abbrev site : Site
site = record {
  api = service_of "selfprivacy-api";
  dummy_services = [];
  test_flags = [];
  files = some definitions;
  parse = parse_definition;
  suggested_exists = true;
  suggested = ok (service_of "jitsi" ∷ []);
}

-- The kept service is from another time.
abbrev globals : Globals
globals = record {
  hardcoded = service_of "simple-nixos-mailserver" ∷ service_of "selfprivacy-api" ∷ [];
  cache = ("gitea", (stat_of 0, service_of "old")) ∷ [];
}

globals-Current : Current parse_definition definitions globals.cache
unfolding lookup
globals-Current = (inl refl, tt)

get_templated_service-load_example :
    ((get_templated_service parse_definition definitions "gitea" globals.cache).0
      ≡ load parse_definition definitions "gitea")
    × Current parse_definition definitions
        (get_templated_service parse_definition definitions "gitea" globals.cache).1
get_templated_service-load_example =
    get_templated_service-load parse_definition definitions "gitea" globals.cache globals-Current

abbrev all_services : List Service
all_services =
    service_of "simple-nixos-mailserver"
    ∷ service_of "selfprivacy-api"
    ∷ service_of "gitea"
    ∷ service_of "jitsi"
    ∷ []

get_service_by_id-listed_example :
    Answers site definitions definitions-named globals globals-Current "jitsi" (service_of "jitsi")
unfolding get_services find_service
get_service_by_id-listed_example =
    get_service_by_id-listed site definitions definitions-named globals globals-Current false
      all_services "jitsi" (service_of "jitsi") refl refl
