-- ===== src/Settings/Tests.antt =====
-- The theorems on settings at concrete inputs.
use selfprivacy_api.Base.{
  String, true, false, ◌≡◌, refl, ◌&&◌, none, some, [], ◌∷◌, str_eq, if◌then◌else◌, Dict, lookup,
}
use selfprivacy_api.Settings.Items.{
  Value, text, boolean, SettingData, ServiceConfigItem, Regex, bool_item, get_value, subdomain_of,
  is_text, is_reserved, set_value,
}
use selfprivacy_api.Settings.Stored.{set_value-get_value}
use selfprivacy_api.Settings.Subdomains.{subdomain_item, set_subdomain_unique}

abbrev any_regex : Regex
any_regex = record { pattern = ".*"; matches = λ s. true }

abbrev before : SettingData
before = record {
  modules = some (("nextcloud", ("enable", boolean true) ∷ []) ∷ ("gitea", []) ∷ []);
}

abbrev subdomain : ServiceConfigItem
subdomain = subdomain_item "git" "Subdomain" any_regex false 0

abbrev enable : ServiceConfigItem
enable = bool_item "enable" false "Enable" none 1

abbrev after : SettingData
after = (set_value subdomain (text "code") "gitea" before).1

set_value-get_value_example : get_value enable "nextcloud" after ≡ (
    if str_eq "gitea" "nextcloud" && str_eq "subdomain" "enable"
    then text "code"
    else get_value enable "nextcloud" before)
unfolding set_value subdomain_of lookup
set_value-get_value_example =
    set_value-get_value subdomain enable (text "code") "gitea" "nextcloud" before after refl

set_subdomain_unique_example :
    (is_reserved "code" ≡ false)
    × ((ms : Dict (Dict Value)) × (after.modules ≡ some ms)
        × ((name : String) (m : Dict Value)
            → lookup name ms ≡ some m
            → is_text "code" (subdomain_of name m) ≡ str_eq "gitea" name))
unfolding set_value subdomain_of lookup
set_subdomain_unique_example =
    set_subdomain_unique "git" "Subdomain" any_regex false 0 "code" "gitea" before after refl
