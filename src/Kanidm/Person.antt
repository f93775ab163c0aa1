-- ===== src/Kanidm/Person.antt =====
-- Persons and groups as Kanidm answers them, turned into the models of the API
-- (selfprivacy_api/repositories/users/kanidm_user_repository.py).
use Prim.Native.Char.{code}
use selfprivacy_api.Base.{
  String, Bool, true, false, not, ◌&&◌, Option, none, some, List, [], ◌∷◌, map, str_eq, ◌==◌,
  if◌then◌else◌, Dict, lookup, keep, all, str_mem, Result, ok, err,
}
use selfprivacy_api.Users.Data.{UserDataUserOrigin, normal, primary, UserDataUser}
use selfprivacy_api.Kanidm.Server.{
  Entry, Json, null, entries, object, KanidmError, user_not_found, kanidm_return_empty_response,
  kanidm_return_unknown_response_type, raw_error,
}

-- `SP_ADMIN_GROUPS`
abbrev pub sp_admin_groups : List String
sp_admin_groups = "sp.admins" ∷ []

-- `get_default_grops`
abbrev pub default_groups : List String
default_groups = "idm_all_persons" ∷ "idm_all_accounts" ∷ "idm_people_self_name_write" ∷ []

unfoldable pub is_default_group : String → Bool
unfolding str_mem
is_default_group group = str_mem group default_groups

-- `_remove_default_groups`
unfoldable pub remove_default_groups : List String → List String
remove_default_groups groups = keep (λ g. not (is_default_group g)) groups

-- `group.rsplit("@")[0]`: the text before the first `@`
unfoldable pub before_at : String → String
before_at String.[] = String.[]
before_at (String.◌∷◌ c s) = if code c == b'@' then String.[] else String.◌∷◌ c (before_at s)

-- `_check_response_type_and_not_empty` for "list" and for "dict", with the data it lets through
unfoldable pub check_list : Json → Result KanidmError (List Entry)
check_list null = err kanidm_return_empty_response
check_list (entries es) = ok es
check_list _ = err kanidm_return_unknown_response_type

unfoldable pub check_dict : Json → Result KanidmError Entry
check_dict null = err kanidm_return_empty_response
check_dict (object e) = ok e
check_dict _ = err kanidm_return_unknown_response_type

-- `_check_user_origin_by_memberof`
unfoldable pub check_user_origin_by_memberof : List String → UserDataUserOrigin
unfolding str_mem
check_user_origin_by_memberof memberof =
    if all (λ g. str_mem g memberof) sp_admin_groups then primary else normal

abbrev pub Attrs : Type 0
Attrs = Dict (List String)

-- `attrs.get(key, [])`
abbrev pub values_of : String → Attrs → List String
values_of key attrs = elim (lookup key attrs) [ none ↦ [] | some xs ↦ xs ]

-- `attrs[key][0]`
abbrev pub first_of : String → Attrs → Result KanidmError String
first_of key attrs = elim (lookup key attrs) [
  | none ↦ err raw_error
  | some xs ↦ elim xs [ [] ↦ err raw_error | x ∷ _ ↦ ok x ]
]

-- `attrs.get(key, [None])[0]`
abbrev pub first_or_none : String → Attrs → Result KanidmError (Option String)
first_or_none key attrs = elim (lookup key attrs) [
  | none ↦ ok none
  | some xs ↦ elim xs [ [] ↦ err raw_error | x ∷ _ ↦ ok (some x) ]
]

abbrev pub groups_of : String → Attrs → List String
groups_of key attrs = map before_at (values_of key attrs)

abbrev pub then_result :
    {A B : Type 0} → Result KanidmError A → (A → Result KanidmError B) → Result KanidmError B
then_result (err e) f = err e
then_result (ok a) f = f a

-- The `UserDataUser` of one person; the actions fill in the keys.
unfoldable pub user_of_attrs : Attrs → Result KanidmError UserDataUser
unfolding check_user_origin_by_memberof remove_default_groups before_at lookup
user_of_attrs attrs = then_result (first_of "name" attrs) λ name.
    then_result (first_or_none "displayname" attrs) λ display_name.
      then_result (first_or_none "mail" attrs) λ email. ok (record {
        username = name;
        user_type = check_user_origin_by_memberof (groups_of "memberof" attrs);
        ssh_keys = [];
        directmemberof = some (remove_default_groups (groups_of "directmemberof" attrs));
        memberof = some (remove_default_groups (groups_of "memberof" attrs));
        display_name = display_name;
        email = email;
      })

abbrev pub is_primary_origin : UserDataUserOrigin → Bool
is_primary_origin primary = true
is_primary_origin _ = false

-- `user.get("attrs", {})`
abbrev pub attrs_or_empty : Entry → Attrs
attrs_or_empty e = elim e.attrs [ none ↦ [] | some a ↦ a ]

-- The loop of `get_users`.
unfoldable pub users_of_entries :
    (exclude_primary : Bool) → List Entry → Result KanidmError (List UserDataUser)
unfolding user_of_attrs check_user_origin_by_memberof before_at lookup
users_of_entries exclude_primary [] = ok []
users_of_entries exclude_primary (e ∷ es) =
    let attrs = attrs_or_empty e in
    let rest = users_of_entries exclude_primary es in
    if exclude_primary
      && is_primary_origin (check_user_origin_by_memberof (groups_of "memberof" attrs))
    then rest
    else then_result (user_of_attrs attrs) λ u. then_result rest λ us. ok (u ∷ us)

-- `models.group.Group`
pub record Group : Type 0 where
  pub name : String
  pub group_class : List String
  pub member : List String
  pub memberof : List String
  pub directmemberof : List String
  pub spn : Option String
  pub description : Option String

abbrev pub is_provisioned : Option String → Bool
is_provisioned none = false
is_provisioned (some name) = str_eq name "ext_idm_provisioned_entities"

unfoldable pub group_of_attrs : Attrs → Result KanidmError Group
unfolding before_at lookup
group_of_attrs attrs = then_result (first_of "name" attrs) λ name.
    then_result (first_or_none "spn" attrs) λ spn.
      then_result (first_or_none "description" attrs) λ description. ok (record {
        name = name;
        group_class = values_of "class" attrs;
        member = groups_of "member" attrs;
        memberof = groups_of "memberof" attrs;
        directmemberof = groups_of "directmemberof" attrs;
        spn = spn;
        description = description;
      })

-- The loop of `get_groups`.
unfoldable pub groups_of_entries : List Entry → Result KanidmError (List Group)
unfolding group_of_attrs str_mem lookup
groups_of_entries [] = ok []
groups_of_entries (e ∷ es) =
    let attrs = attrs_or_empty e in
    let rest = groups_of_entries es in
    if str_mem "builtin" (values_of "class" attrs)
    then rest
    else then_result (first_or_none "name" attrs) λ name.
      if is_provisioned name
      then rest
      else then_result (group_of_attrs attrs) λ g. then_result rest λ gs. ok (g ∷ gs)

-- `except KanidmReturnEmptyResponse: raise UserNotFound`
abbrev pub empty_as_not_found : Result KanidmError Entry → Result KanidmError Entry
empty_as_not_found (err kanidm_return_empty_response) = err user_not_found
empty_as_not_found r = r

abbrev pub user_of_entry : Entry → Result KanidmError UserDataUser
user_of_entry e = elim e.attrs [ none ↦ err raw_error | some attrs ↦ user_of_attrs attrs ]
