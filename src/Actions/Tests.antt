-- ===== src/Actions/Tests.antt =====
-- The theorems on the actions at concrete inputs, over a provider that keeps one user's groups and
-- has three groups.
use mathlib.Core.Path.{subst}
use Prim.Native.String.{◌++◌ as str_append}
use selfprivacy_api.Base.{
  Bool, ℕ, zero, suc, ◌≤◌, ◌<◌, String, ◌≡◌, refl, ◌⊎◌, false, not, ◌&&◌, none, some, List, [], ◌∷◌,
  arith, str_eq, if◌then◌else◌, keep, str_mem, str_mem-keep, lookup, Result, ok, err, pure, raise,
  Action, true, Bool-cases, inl, inr, eq_iff,
}
use selfprivacy_api.Users.Data.{UserEntry, normal, UserDataUser}
use selfprivacy_api.Users.Repo as Json_repo
use selfprivacy_api.Kanidm.Server.{KanidmError, raw_error}
use selfprivacy_api.Kanidm.Person.{is_default_group, remove_default_groups}
use selfprivacy_api.Actions.Names.{reserved_usernames, str_length}
use selfprivacy_api.Actions.Provider.{Provider}
use selfprivacy_api.Actions.Accounts.{
  ActionError, username_forbidden, Accounts, AccountEnv, check_username,
}
use selfprivacy_api.Actions.Users.{create_user, delete_user, update_user}
use selfprivacy_api.Actions.Groups.{GroupLaws}
use selfprivacy_api.Actions.Creation.{create_user-name}
use selfprivacy_api.Actions.Deletion.{delete_user-forgets}

abbrev person_in : List String → UserDataUser
person_in groups = record {
  username = "alice";
  user_type = normal;
  ssh_keys = [];
  directmemberof = some (remove_default_groups groups);
  memberof = some [];
  display_name = none;
  email = none;
}

abbrev existing_groups : List String
existing_groups = "sp.full_users" ∷ "sp.admins" ∷ "idm_all_persons" ∷ []

-- A call for a group that is not there raises.
abbrev in_group : String → List String → Action (List String) KanidmError (Unit {0})
in_group group s' s = if str_mem group existing_groups then (ok tt, s') else (err raw_error, s)

abbrev memory : Provider (List String)
memory = record {
  create_user = λ username groups displayname. pure tt;
  get_users = λ exclude_primary s. (ok (person_in s ∷ []), s);
  delete_user = λ username. pure tt;
  update_user = λ username displayname. pure tt;
  get_user_by_username = λ username s. (ok (person_in s), s);
  generate_password_reset_link = λ username. raise raw_error;
  get_groups = raise raw_error;
  add_users_to_group = λ users group s. in_group group (group ∷ s) s;
  remove_users_from_group = λ users group s. in_group group (keep (λ g. not (str_eq group g)) s) s;
}

memory_read :
    (s : List String) (g : String)
    → is_default_group g ≡ false
    → str_mem g (remove_default_groups s) ≡ str_mem g s
unfolding remove_default_groups
memory_read s g named = ground (arith, str_mem-keep (λ x. not (is_default_group x)) g s)

memory_removed :
    (s : List String) (x g : String)
    → str_mem g (keep (λ y. not (str_eq x y)) s) ≡ (not (str_eq x g) && str_mem g s)
memory_removed s x g = ground (arith, str_mem-keep (λ y. not (str_eq x y)) g s)

-- All groups of the user are there.
abbrev AllExist : List String → Type 0
AllExist s = (g : String) → str_mem g s ≡ true → str_mem g existing_groups ≡ true

memory_default : (s : List String) → AllExist s → AllExist (remove_default_groups s)
unfolding remove_default_groups
memory_default s all g here =
    all g (ground (arith, str_mem-keep (λ x. not (is_default_group x)) g s))

in_group-ok :
    (group : String) (s' s : List String)
    → str_mem group existing_groups ≡ true
    → in_group group s' s ≡ (ok tt, s')
in_group-ok group s' s there = rw there refl

cons-AllExist :
    (group : String) (s : List String)
    → str_mem group existing_groups ≡ true
    → AllExist s
    → AllExist (group ∷ s)
unfolding str_mem
cons-AllExist group s there all g here = elim (Bool-cases (str_eq group g)) [
  | inl same ↦ subst (λ x. str_mem x existing_groups ≡ true) ((eq_iff group g).0 same) there
  | inr other ↦ all g (rw other at here)
]

keep-AllExist :
    (x : String) (s : List String) → AllExist s → AllExist (keep (λ g. not (str_eq x g)) s)
keep-AllExist x s all g here = all g (ground (arith, str_mem-keep (λ y. not (str_eq x y)) g s))

memory_laws : GroupLaws memory "alice"
unfolding str_mem
memory_laws = record {
  Ready = AllExist;
  known = λ g. str_mem g existing_groups;
  is_member = λ s g. str_mem g s;
  reads =
      λ s ready. (person_in s, s, refl, ready, λ g. refl, memory_default s ready, memory_read s);
  adds = λ s group there ready. (
    group ∷ s,
    in_group-ok group (group ∷ s) s there,
    cons-AllExist group s there ready,
    λ g. refl,
  );
  removes = λ s group there ready. (
    keep (λ g. not (str_eq group g)) s,
    in_group-ok group (keep (λ g. not (str_eq group g)) s) s there,
    keep-AllExist group s ready,
    memory_removed s group,
  );
  renames = λ s name ready. (s, refl, ready, λ g. refl);
}

abbrev own_keys : (username owner : String) → Bool
own_keys username owner = str_eq owner username

abbrev env : AccountEnv
env = record {
  users = record { hash_password = λ s. s; uuid = "u" };
  email = record {
    now = 10;
    uuid4 = "e";
    generate_password_hash = λ s. s;
    matches = own_keys;
    verify_password = str_eq;
  };
}

abbrev alice : UserEntry
alice = record { username = "alice"; ssh_keys = some []; hashed_password = none }

abbrev accounts : Accounts (List String)
accounts = record {
  userdata = record {
    username = some "owner";
    hashed_master_password = none;
    ssh_keys = none;
    ssh = none;
    users = some (alice ∷ []);
  };
  passwords = [];
  remote = "sp.admins" ∷ "idm_all_persons" ∷ [];
}

abbrev refused_name : Result ActionError (Unit {0})
refused_name = err (username_forbidden none)

create_user-name_example :
    ((e : ActionError) × (check_username "root" ≡ some e)
      × (refused_name ≡ err e)
      × (accounts ≡ accounts))
    ⊎ ((2 ≤ str_length "root")
        × (str_length "root" < 32)
        × (str_mem "root" reserved_usernames ≡ false))
unfolding create_user
create_user-name_example =
    create_user-name memory env "root" none none none accounts accounts refused_name refl

abbrev repeated : ℕ → String
repeated zero = ""
repeated (suc n) = str_append "a" (repeated n)

abbrev deleted : Result ActionError (Unit {0}) × Accounts (List String)
deleted = delete_user own_keys memory "alice" accounts

delete_user-forgets_example :
    (deleted.1.userdata ≡ (Json_repo.delete_user "alice" accounts.userdata).1)
    × (deleted.0 ≡ ok tt → lookup "alice" deleted.1.passwords ≡ none)
delete_user-forgets_example =
    delete_user-forgets own_keys memory "alice" accounts deleted.1 deleted.0 refl refl refl
