-- ===== src/Actions/Provider.antt =====
-- `AbstractUserRepository`: what the actions call, and how the Kanidm repository answers it.
use selfprivacy_api.Base.{String, Bool, Option, List, Action}
use selfprivacy_api.Users.Data.{UserDataUser}
use selfprivacy_api.Kanidm.Server.{Kanidm, KanidmError, World}
use selfprivacy_api.Kanidm.Person.{Group}
use selfprivacy_api.Kanidm.Repo as Kanidm_repo

-- `S` is what the provider reads and changes.
pub record Provider (S : Type 0) : Type 0 where
  pub create_user :
      (username : String)
      → (directmemberof : Option (List String)) → (displayname : Option String)
      → Action S KanidmError (Unit {0})
  pub get_users : (exclude_primary : Bool) → Action S KanidmError (List UserDataUser)
  pub delete_user : (username : String) → Action S KanidmError (Unit {0})
  pub update_user :
      (username : String) → (displayname : Option String) → Action S KanidmError (Unit {0})
  pub get_user_by_username : (username : String) → Action S KanidmError UserDataUser
  pub generate_password_reset_link : (username : String) → Action S KanidmError String
  pub get_groups : Action S KanidmError (List Group)
  pub add_users_to_group :
      (users : List String) → (group_name : String) → Action S KanidmError (Unit {0})
  pub remove_users_from_group :
      (users : List String) → (group_name : String) → Action S KanidmError (Unit {0})

-- `ACTIVE_USERS_PROVIDER`
unfoldable pub active_users_provider : {R : Type 0} → Kanidm R → Provider (World R)
active_users_provider k = record {
  create_user = Kanidm_repo.create_user k;
  get_users = Kanidm_repo.get_users k;
  delete_user = Kanidm_repo.delete_user k;
  update_user = Kanidm_repo.update_user k;
  get_user_by_username = Kanidm_repo.get_user_by_username k;
  generate_password_reset_link = Kanidm_repo.generate_password_reset_link k;
  get_groups = Kanidm_repo.get_groups k;
  add_users_to_group = Kanidm_repo.add_users_to_group k;
  remove_users_from_group = Kanidm_repo.remove_users_from_group k;
}
