-- ===== src/System/Preferences.antt =====
-- The time zone, the DNS provider and the automatic upgrades: selfprivacy_api/actions/system.py.
-- The list of time zones and the DNS providers are arguments.
use selfprivacy_api.Base.{
  String, ◌≡◌, refl, Bool, true, false, not, ◌&&◌, ◌||◌, Option, none, some, List, [], str_eq,
  str_mem, if◌then◌else◌, Dict, insert, erase, Result, ok, err, Action, raise_if, modify, ◌>>◌,
}

pub record AutoUpgrade : Type 0 where
  pub enable : Option Bool
  pub allow_reboot : Option Bool

-- The fields of userdata.json that are read and written here, and the dict `dns` of secrets.json
pub record Preferences : Type 0 where
  pub timezone : Option String
  pub dns_provider : Option String
  pub auto_upgrade : Option AutoUpgrade
  pub dns_secrets : Option (Dict String)

pub data SystemError : Type 0 where
  invalid_timezone provider_requires_secret provider_does_not_use_secret : SystemError

abbrev pub value_or {ℓ} : {A : Type ℓ} → A → Option A → A
value_or a none = a
value_or a (some b) = b

unfoldable pub get_timezone : Preferences → String
get_timezone u = value_or "Etc/UTC" u.timezone

unfoldable pub change_timezone :
    (all_timezones : List String) → String → Action Preferences SystemError (Unit {0})
unfolding str_mem
change_timezone all_timezones timezone = do
  raise_if (not (str_mem timezone all_timezones)) invalid_timezone
  modify (λ u. record u { timezone = some timezone })

-- `DnsProvider`: its value, and which secrets it needs.
pub record DnsProvider : Type 0 where
  pub provider_value : String
  pub needs_token_id : Bool
  pub needs_url : Bool
  pub needs_tenant : Bool
  pub needs_secondary_token : Bool

pub record DnsSecrets : Type 0 where
  pub token_id : Option String
  pub dns_url : Option String
  pub tenant : Option String
  pub secondary_token : Option String

-- The truth of an optional text
abbrev pub given : Option String → Bool
given none = false
given (some t) = not (str_eq t "")

unfoldable pub secret_missing : DnsProvider → DnsSecrets → Bool
secret_missing p x =
    p.needs_token_id && not (given x.token_id)
    || p.needs_url && not (given x.dns_url)
    || p.needs_tenant && not (given x.tenant)
    || p.needs_secondary_token && not (given x.secondary_token)

unfoldable pub secret_unused : DnsProvider → DnsSecrets → Bool
secret_unused p x =
    not p.needs_token_id && given x.token_id
    || not p.needs_url && given x.dns_url
    || not p.needs_tenant && given x.tenant
    || not p.needs_secondary_token && given x.secondary_token

-- `_validate_dns_provider_input`
unfoldable pub validate_dns_provider_input :
    DnsProvider → DnsSecrets → Result SystemError (Unit {0})
unfolding secret_missing secret_unused
validate_dns_provider_input p x =
    if secret_missing p x
    then err provider_requires_secret
    else if secret_unused p x
    then err provider_does_not_use_secret
    else ok tt

-- `if secret: d[key] = secret`, `else: d.pop(key, None)`
unfoldable pub put_or_pop : (key : String) → Option String → Dict String → Dict String
unfolding insert erase
put_or_pop key none d = erase key d
put_or_pop key (some t) d = if str_eq t "" then erase key d else insert key t d

unfoldable pub written_secrets : (token : String) → DnsSecrets → Dict String → Dict String
unfolding put_or_pop
written_secrets token x d = put_or_pop "secondaryToken" x.secondary_token (
    put_or_pop "tenant" x.tenant (
      put_or_pop "url" x.dns_url
        (put_or_pop "tokenId" x.token_id (erase "apiKey" (insert "token" token d)))))

abbrev pub validated : Result SystemError (Unit {0}) → Action Preferences SystemError (Unit {0})
validated r u = (r, u)

unfoldable pub set_dns_provider :
    DnsProvider → (token : String) → DnsSecrets → Action Preferences SystemError (Unit {0})
unfolding validate_dns_provider_input written_secrets
set_dns_provider p token x = do
  validated (validate_dns_provider_input p x)
  modify (λ u. record u {
    dns_provider = some p.provider_value;
    dns_secrets = some (written_secrets token x (value_or [] u.dns_secrets));
  })

abbrev no_settings : AutoUpgrade
no_settings = record { enable = none; allow_reboot = none }

-- What `UserDataAutoUpgradeSettings` has: `enable` is on and `allowReboot` off by default.
unfoldable pub get_auto_upgrade_settings : Preferences → Bool × Bool
get_auto_upgrade_settings u =
    let settings = value_or no_settings u.auto_upgrade in
    (value_or true settings.enable, value_or false settings.allow_reboot)

abbrev pub first_given : Option Bool → Option Bool → Option Bool
first_given none old = old
first_given (some b) old = some b

unfoldable pub set_auto_upgrade_settings :
    (enable allow_reboot : Option Bool) → Preferences → Preferences
set_auto_upgrade_settings enable allow_reboot u =
    let old = value_or no_settings u.auto_upgrade in
    record u {
      auto_upgrade = some (record {
        enable = first_given enable old.enable;
        allow_reboot = first_given allow_reboot old.allow_reboot;
      });
    }

-- A setting that was given is read back, one that was not given reads as before.
pub set-get_auto_upgrade_settings :
    (enable allow_reboot : Option Bool) (u : Preferences)
    → get_auto_upgrade_settings (set_auto_upgrade_settings enable allow_reboot u) ≡ (
      value_or (get_auto_upgrade_settings u).0 enable,
      value_or (get_auto_upgrade_settings u).1 allow_reboot,
    )
unfolding get_auto_upgrade_settings set_auto_upgrade_settings
set-get_auto_upgrade_settings none none u = refl
set-get_auto_upgrade_settings none (some a) u = refl
set-get_auto_upgrade_settings (some e) none u = refl
set-get_auto_upgrade_settings (some e) (some a) u = refl
