-- ===== src/Kanidm/Repo.antt =====
-- `KanidmUserRepository`: users and groups by requests to Kanidm.
use Prim.Native.String.{◌++◌ as str_append}
use selfprivacy_api.Base.{
  String, Bool, Option, none, some, List, [], ◌∷◌, Result, ok, err, pure, ◌>>=◌, ◌>>◌,
}
use selfprivacy_api.Users.Data.{UserDataUser}
use selfprivacy_api.Kanidm.Server.{
  Entry, Method, get_method, post_method, patch_method, delete_method, Payload, no_data, attributes,
  members, KanidmError, no_password_reset_link_found_in_response, Kanidm, Call,
}
use selfprivacy_api.Kanidm.Token.{lift_result, non_empty}
use selfprivacy_api.Kanidm.Query.{send_query}
use selfprivacy_api.Kanidm.Person.{
  check_list, check_dict, Attrs, user_of_attrs, users_of_entries, groups_of_entries,
  empty_as_not_found, user_of_entry, Group,
}

-- `KANIDM_A_RECORD`
abbrev pub kanidm_a_record : String
kanidm_a_record = "auth"

abbrev pub person : String → String
person username = str_append "person/" username

abbrev pub name_or : Option String → String → String
name_or displayname username = elim (non_empty displayname) [ none ↦ username | some n ↦ n ]

abbrev pub mail_of : String → String → String
mail_of username domain = str_append username (str_append "@" domain)

abbrev pub reset_link : String → Entry → Result KanidmError String
reset_link domain e = elim (non_empty e.token) [
  | none ↦ err no_password_reset_link_found_in_response
  | some t ↦ ok (
      str_append "https://" (
        str_append kanidm_a_record
          (str_append "." (str_append domain (str_append "/ui/reset?token=" t)))))
]

module _ {R : Type 0} where
  -- A query whose answer is not looked at.
  abbrev pub send : Kanidm R → Method → String → Payload → Call R (Unit {0})
  send k method endpoint payload = do _ ← send_query k method endpoint payload; pure tt

  unfoldable pub add_users_to_group : Kanidm R → List String → String → Call R (Unit {0})
  add_users_to_group k users group_name =
      send k post_method (str_append "group/" (str_append group_name "/_attr/member"))
        (members users)

  unfoldable pub remove_users_from_group : Kanidm R → List String → String → Call R (Unit {0})
  remove_users_from_group k users group_name =
      send k delete_method (str_append "group/" (str_append group_name "/_attr/member"))
        (members users)

  -- `for group in directmemberof`
  abbrev pub add_to_groups : Kanidm R → String → List String → Call R (Unit {0})
  add_to_groups k username [] = pure tt
  add_to_groups k username (g ∷ gs) =
      add_users_to_group k (username ∷ []) g >> add_to_groups k username gs

  unfoldable pub create_user :
      Kanidm R
      → (username : String) → (directmemberof : Option (List String))
      → (displayname : Option String) → Call R (Unit {0})
  unfolding add_users_to_group
  create_user k username directmemberof displayname = do
    send k post_method "person" (
        attributes (
          ("name", username ∷ [])
          ∷ ("displayname", name_or displayname username ∷ [])
          ∷ ("mail", mail_of username k.domain ∷ [])
          ∷ ("class", "user" ∷ [])
          ∷ []))
    elim directmemberof [ none ↦ pure tt | some groups ↦ add_to_groups k username groups ]

  unfoldable pub get_users : Kanidm R → (exclude_primary : Bool) → Call R (List UserDataUser)
  unfolding check_list users_of_entries
  get_users k exclude_primary = do
    data_ ← send_query k get_method "person" no_data
    es ← lift_result (check_list data_)
    lift_result (users_of_entries exclude_primary es)

  unfoldable pub delete_user : Kanidm R → String → Call R (Unit {0})
  delete_user k username = send k delete_method (person username) no_data

  unfoldable pub update_user : Kanidm R → String → (displayname : Option String) → Call R (Unit {0})
  update_user k username displayname =
      let mail : Attrs = ("mail", mail_of username k.domain ∷ []) ∷ [] in
      send k patch_method (person username) (
        attributes (elim (non_empty displayname) [
          | none ↦ mail
          | some n ↦ ("mail", mail_of username k.domain ∷ []) ∷ ("displayname", n ∷ []) ∷ []
        ]))

  unfoldable pub get_user_by_username : Kanidm R → String → Call R UserDataUser
  unfolding check_dict user_of_attrs
  get_user_by_username k username = do
    data_ ← send_query k get_method (person username) no_data
    e ← lift_result (empty_as_not_found (check_dict data_))
    lift_result (user_of_entry e)

  unfoldable pub generate_password_reset_link : Kanidm R → String → Call R String
  unfolding check_dict
  generate_password_reset_link k username = do
    data_ ←
        send_query k get_method (str_append (person username) "/_credential/_update_intent") no_data
    e ← lift_result (check_dict data_)
    lift_result (reset_link k.domain e)

  unfoldable pub get_groups : Kanidm R → Call R (List Group)
  unfolding check_list groups_of_entries
  get_groups k = do
    data_ ← send_query k get_method "group" no_data
    es ← lift_result (check_list data_)
    lift_result (groups_of_entries es)
