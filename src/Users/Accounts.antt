-- ===== src/Users/Accounts.antt =====
-- Accounts of the JSON repository: creation and deletion undo one another, names stay unique,
-- the primary user and root are protected, and a new password changes no listing.
use selfprivacy_api.Base.{
  String, ◌≡◌, refl, ap, inl, inr, Bool, false, Option, none, some, List, [], ◌∷◌, ◌++◌, map, arith,
  str_eq, eq_iff, if◌then◌else◌, Bool-cases, Option-cases, is_some, ok,
}
use selfprivacy_api.Users.Data.{
  plain_user, UserEntry, UserData, normal, UserDataUser, ensure_fields, users_of, entry_keys,
  is_primary, find_user,
}
use selfprivacy_api.Users.Repo.{
  UserEnv, chosen_password, get_users, create_user, remove_user, delete_user, set_password,
  update_user, get_user_by_username, has_user,
}

abbrev UniqueNames : List UserEntry → Type 0
UniqueNames [] = Unit
UniqueNames (u ∷ us) = (find_user u.username us ≡ none) × UniqueNames us

-- No two users share a name, and none has the primary user's.
pub record IsValid (d : UserData) : Type 0 where
  pub unique : UniqueNames (users_of d)
  pub free : (elim d.username [ none ↦ false | some n ↦ has_user n d ]) ≡ false

find_user-snoc :
    (name : String) (us : List UserEntry) (v : UserEntry)
    → find_user name (us ++ (v ∷ [])) ≡ (elim (find_user name us) [
      | none ↦ if str_eq v.username name then some v else none
      | some u ↦ some u
    ])
find_user-snoc name [] v = refl
find_user-snoc name (u ∷ us) v = ground (arith, find_user-snoc name us v)

UniqueNames-snoc :
    (us : List UserEntry) (v : UserEntry)
    → UniqueNames us
    → find_user v.username us ≡ none
    → UniqueNames (us ++ (v ∷ []))
UniqueNames-snoc [] v h e = (refl, tt)
UniqueNames-snoc (u ∷ us) v h e = ground (
  arith,
  UniqueNames-snoc us v h.1,
  find_user-snoc u.username us v,
  eq_iff u.username v.username,
  eq_iff v.username u.username,
)

abbrev new_user : UserEnv → String → Option String → UserEntry
new_user env name password = record {
  username = name;
  ssh_keys = some [];
  hashed_password = some (env.hash_password (chosen_password env password));
}

abbrev with_user : UserEntry → UserData → UserData
with_user v d = record (ensure_fields d) { users = some (users_of (ensure_fields d) ++ (v ∷ [])) }

-- The data that a `create_user` that returns has written.
create_user-written :
    (env : UserEnv) (name : String) (password : Option String) (d d' : UserData)
    → create_user env name password d ≡ (ok tt, d')
    → (is_primary name d ≡ false)
      × (find_user name (users_of (ensure_fields d)) ≡ none)
      × (d' ≡ with_user (new_user env name password) d)
unfolding create_user
create_user-written env name password d d' e = (ground arith, ground arith, ground arith)

find_user-new :
    (name : String) (us : List UserEntry) (v : UserEntry)
    → find_user name us ≡ none
    → v.username ≡ name
    → find_user name (us ++ (v ∷ [])) ≡ some v
find_user-new name us v absent named =
    ground (arith, find_user-snoc name us v, eq_iff v.username name)

-- A user other than root that `create_user` made is found, as a normal user without keys, and was
-- not found before.
pub create_user_shows :
    (env : UserEnv) (name : String) (password : Option String) (d d' : UserData)
    → str_eq name "root" ≡ false
    → create_user env name password d ≡ (ok tt, d')
    → (get_user_by_username name d ≡ none)
      × (get_user_by_username name d' ≡ some (plain_user name normal []))
unfolding get_user_by_username
create_user_shows env name password d d' other e =
    let (free, absent, written) = create_user-written env name password d d' e in
    let us = users_of (ensure_fields d) in
    let found = find_user-new name us (new_user env name password) absent refl in
    (simp (other, free, absent), rw written (simp (other, free, found)))

remove_user-snoc :
    (name : String) (us : List UserEntry) (v : UserEntry)
    → find_user name us ≡ none
    → v.username ≡ name
    → remove_user name (us ++ (v ∷ [])) ≡ us
unfolding remove_user
remove_user-snoc name [] v absent named = ground (arith, eq_iff v.username name)
remove_user-snoc name (u ∷ us) v absent named = ground (arith, remove_user-snoc name us v)

-- Deleting a user other than root right after it was created succeeds, and leaves the data as they were but for
-- the fields that the code fills in.
pub delete-create_user :
    (env : UserEnv) (name : String) (password : Option String) (d d' : UserData)
    → str_eq name "root" ≡ false
    → create_user env name password d ≡ (ok tt, d')
    → delete_user name d' ≡ (ok tt, ensure_fields d)
unfolding delete_user
delete-create_user env name password d d' other e =
    let (free, absent, written) = create_user-written env name password d d' e in
    let us = users_of (ensure_fields d) in
    let v = new_user env name password in
    let found = find_user-new name us v absent refl in
    let gone = remove_user-snoc name us v absent refl in ground arith

find_user-remove_user :
    (name : String) (us : List UserEntry)
    → UniqueNames us
    → find_user name (remove_user name us) ≡ none
unfolding remove_user
find_user-remove_user name [] h = refl
find_user-remove_user name (u ∷ us) h =
    ground (arith, find_user-remove_user name us h.1, eq_iff u.username name)

-- Where names are unique, a deleted user is not found any more; root and the primary user are
-- never deleted.
pub delete_user_gone :
    (name : String) (d d' : UserData)
    → IsValid d
    → delete_user name d ≡ (ok tt, d')
    → (get_user_by_username name d' ≡ none)
      × (str_eq name "root" ≡ false)
      × (is_primary name d ≡ false)
unfolding delete_user get_user_by_username
delete_user_gone name d d' v e =
    let gone = find_user-remove_user name (users_of d) v.unique in
    (ground arith, ground arith, ground arith)

primary-snoc :
    (name n : String) (us : List UserEntry) (v : UserEntry)
    → find_user n us ≡ none
    → v.username ≡ name
    → str_eq n name ≡ false
    → is_some (find_user n (us ++ (v ∷ []))) ≡ false
primary-snoc name n us v free named other =
    ground (arith, find_user-snoc n us v, eq_iff v.username n, eq_iff n name)

users_of-ensure_fields : (d : UserData) → users_of (ensure_fields d) ≡ users_of d
unfolding ensure_fields
users_of-ensure_fields d = ground arith

not_some : (o : Option UserEntry) → is_some o ≡ false → o ≡ none
not_some none h = refl
not_some (some u) h = cc

-- Creating a user keeps the names unique, where they were unique before and none was the primary
-- user's.
pub create_user-IsValid :
    (env : UserEnv) (name : String) (password : Option String) (d d' : UserData)
    → IsValid d
    → create_user env name password d ≡ (ok tt, d')
    → IsValid d'
unfolding ensure_fields
create_user-IsValid env name password d d' v e =
    let (free, absent, written) = create_user-written env name password d d' e in
    let us = users_of (ensure_fields d) in
    let new = new_user env name password in
    rw written (record {
      unique = UniqueNames-snoc us new (rw users_of-ensure_fields v.unique) absent;
      free = elim (Option-cases d.username) [
        | inl no_primary ↦ simp no_primary
        | inr (n, primary_name) ↦ simp primary_name (
            primary-snoc name n us new
              (not_some (find_user n us) (rw users_of-ensure_fields (rw primary_name at v.free)))
              refl (rw primary_name at free))
      ];
    })

set_password-listing :
    (hashed name : String) (us : List UserEntry)
    → map {B = UserDataUser}
        (λ u. plain_user u.username normal (entry_keys u))
        (set_password name hashed us)
      ≡ map {B = UserDataUser} (λ u. plain_user u.username normal (entry_keys u)) us
unfolding set_password
set_password-listing hashed name [] = refl
set_password-listing hashed name (u ∷ us) = elim (Bool-cases (str_eq u.username name)) [
  | inl here ↦ rw here
  | inr other ↦ rw other (
      ap (◌∷◌ (let row : UserDataUser = plain_user u.username normal (entry_keys u) in row))
        (set_password-listing hashed name us))
]

-- A new password changes no user, name or key in the listing.
pub update_user-get_users :
    (env : UserEnv) (name : String) (password : Option String) (no_primary no_root : Bool)
    (d : UserData)
    → get_users no_primary no_root (update_user env name password d).1
      ≡ get_users no_primary no_root d
unfolding update_user get_users
update_user-get_users env name password no_primary no_root d = ground (
  arith,
  set_password-listing (env.hash_password (chosen_password env password)) name
      (users_of (ensure_fields d)),
)
