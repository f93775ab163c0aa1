-- ===== src/Actions/Groups.antt =====
-- What `update_user` of selfprivacy_api/actions/users.py does to a user's groups, by what the
-- provider promises about a user it knows.
use selfprivacy_api.Base.{
  String, ◌≡◌, Bool, true, false, not, ◌&&◌, ◌||◌, some, List, [], ◌∷◌, str_eq, str_mem, ok,
}
use selfprivacy_api.Users.Data.{UserDataUser, keys_or_empty}
use selfprivacy_api.Kanidm.Person.{is_default_group}
use selfprivacy_api.Actions.Provider.{Provider}
use selfprivacy_api.Actions.Accounts.{Accounts}
use selfprivacy_api.Actions.Users.{update_user}

-- Of a state that is `Ready`, the provider answers about the user and changes one membership at
-- a time, in a group that it has (`known`): a call for another group may raise. A read lists groups
-- that it has, and of the groups that are not default groups those of the user.
pub record GroupLaws {S : Type 0} (p : Provider S) (username : String) : Type 1 where
  pub Ready : S → Type 0
  pub known : String → Bool
  pub is_member : S → String → Bool
  pub reads :
      (s : S)
      → Ready s
      → (user : UserDataUser) × (s' : S) × (p.get_user_by_username username s ≡ (ok user, s'))
        × Ready s'
        × ((g : String) → is_member s' g ≡ is_member s g)
        × ((g : String) → str_mem g (keys_or_empty user.directmemberof) ≡ true → known g ≡ true)
        × ((g : String)
            → is_default_group g ≡ false
            → str_mem g (keys_or_empty user.directmemberof) ≡ is_member s g)
  pub adds :
      (s : S) (group : String)
      → known group ≡ true
      → Ready s
      → (s' : S) × (p.add_users_to_group (username ∷ []) group s ≡ (ok tt, s'))
        × Ready s'
        × ((g : String) → is_member s' g ≡ (str_eq group g || is_member s g))
  pub removes :
      (s : S) (group : String)
      → known group ≡ true
      → Ready s
      → (s' : S) × (p.remove_users_from_group (username ∷ []) group s ≡ (ok tt, s'))
        × Ready s'
        × ((g : String) → is_member s' g ≡ (not (str_eq group g) && is_member s g))
  pub renames :
      (s : S) (name : String)
      → Ready s
      → (s' : S) × (p.update_user username (some name) s ≡ (ok tt, s'))
        × Ready s'
        × ((g : String) → is_member s' g ≡ is_member s g)

module _ {S : Type 0} (p : Provider S) (username : String) (laws : GroupLaws p username) where
  -- The provider has every group of a list.
  abbrev pub AllKnown : List String → Type 0
  AllKnown gs = (g : String) → str_mem g gs ≡ true → laws.known g ≡ true
