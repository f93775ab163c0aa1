-- ===== src/Binds/Config.antt =====
-- `BindMigrationConfig`, `is_bind_migrated` and `activate_binds` of
-- selfprivacy_api/jobs/migrate_to_binds.py. Of userdata.json: `useBinds`, and the dicts of texts at
-- its top.
use selfprivacy_api.Base.{
  String, ◌≡◌, refl, Bool, true, Option, none, some, List, [], ◌∷◌, arith, str_eq, eq_iff,
  if◌then◌else◌, Dict, lookup, insert, lookup-insert,
}

pub record UserData : Type 0 where
  pub use_binds : Option Bool
  pub sections : Dict (Dict String)

pub record BindMigrationConfig : Type 0 where
  pub email_block_device : String
  pub bitwarden_block_device : String
  pub gitea_block_device : String
  pub nextcloud_block_device : String
  pub pleroma_block_device : String

-- `config.__dict__.values()`
abbrev pub config_devices : BindMigrationConfig → List String
config_devices c =
    c.email_block_device ∷ c.bitwarden_block_device ∷ c.gitea_block_device
    ∷ c.nextcloud_block_device ∷ c.pleroma_block_device ∷ []

-- `user_data.get("useBinds", False)`
unfoldable pub is_bind_migrated : UserData → Bool
is_bind_migrated u = elim u.use_binds [ none ↦ Bool.false | some b ↦ b ]

abbrev pub section_or_empty : Option (Dict String) → Dict String
section_or_empty none = []
section_or_empty (some d) = d

-- The section is made when it is missing.
unfoldable pub set_section_location :
    (name device : String) → Dict (Dict String) → Dict (Dict String)
unfolding lookup insert
set_section_location name device d =
    insert name (insert "location" device (section_or_empty (lookup name d))) d

unfoldable pub activate_binds : BindMigrationConfig → UserData → UserData
unfolding set_section_location
activate_binds c u = record {
  use_binds = some true;
  sections = set_section_location "pleroma" c.pleroma_block_device (
      set_section_location "nextcloud" c.nextcloud_block_device (
        set_section_location "gitea" c.gitea_block_device (
          set_section_location "bitwarden" c.bitwarden_block_device
            (set_section_location "email" c.email_block_device u.sections))));
}

-- `user_data[name][field]`
unfoldable pub field_of : (name field : String) → UserData → Option String
unfolding lookup
field_of name field u = elim (lookup name u.sections) [ none ↦ none | some d ↦ lookup field d ]

-- The device that a configuration names for a section.
unfoldable pub device_for : String → BindMigrationConfig → Option String
device_for name c =
    if str_eq "pleroma" name
    then some c.pleroma_block_device
    else if str_eq "nextcloud" name
    then some c.nextcloud_block_device
    else if str_eq "gitea" name
    then some c.gitea_block_device
    else if str_eq "bitwarden" name
    then some c.bitwarden_block_device
    else if str_eq "email" name
    then some c.email_block_device
    else none

abbrev located : Dict (Dict String) → UserData
located d = record { use_binds = none; sections = d }

field_of-set :
    (name field section device : String) (d : Dict (Dict String))
    → field_of name field (located (set_section_location section device d)) ≡ (
        if str_eq section name
        then (if str_eq "location" field then some device else field_of name field (located d))
        else field_of name field (located d))
unfolding set_section_location field_of lookup
field_of-set name field section device d = ground (
  arith,
  lookup-insert name section (insert "location" device (section_or_empty (lookup section d))) d,
  lookup-insert field "location" device (section_or_empty (lookup section d)),
  eq_iff section name,
)

-- Activating the binds writes the configured device down as the location of each of the five
-- sections, whether the section was there or not, and changes no other field of any section; from
-- then on the server counts as migrated.
pub activate_binds-field_of :
    (c : BindMigrationConfig) (u : UserData) (name field : String)
    → (is_bind_migrated (activate_binds c u) ≡ true)
      × (field_of name field (activate_binds c u) ≡ (
          if str_eq "location" field
          then elim (device_for name c) [ none ↦ field_of name field u | some d ↦ some d ]
          else field_of name field u))
unfolding activate_binds is_bind_migrated device_for field_of
activate_binds-field_of c u name field =
    let d1 = set_section_location "email" c.email_block_device u.sections in
    let d2 = set_section_location "bitwarden" c.bitwarden_block_device d1 in
    let d3 = set_section_location "gitea" c.gitea_block_device d2 in
    let d4 = set_section_location "nextcloud" c.nextcloud_block_device d3 in
    (
      refl,
      ground (
        arith,
        field_of-set name field "email" c.email_block_device u.sections,
        field_of-set name field "bitwarden" c.bitwarden_block_device d1,
        field_of-set name field "gitea" c.gitea_block_device d2,
        field_of-set name field "nextcloud" c.nextcloud_block_device d3,
        field_of-set name field "pleroma" c.pleroma_block_device d4,
      ),
    )
