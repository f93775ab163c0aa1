-- ===== src/Users/Keys.antt =====
-- Adding an SSH key shows in the listing and removing it undoes that; other users keep theirs.
use selfprivacy_api.Base.{
  Result-cases, String, ◌≡◌, refl, sym, ap, ◌∙◌, inl, inr, Bool, true, false, Option, none, some,
  List, [], ◌∷◌, ◌++◌, arith, str_eq, eq_iff, eq_refl, if◌then◌else◌, Bool-cases, Option-cases,
  str_mem, str_remove, ok,
}
use selfprivacy_api.Users.Data.{
  UserEntry, UserData, ensure_fields, root_keys, main_keys, users_of, entry_keys, is_primary,
  find_user, set_root_keys, set_main_keys,
}
use selfprivacy_api.Users.Ssh.{
  add_key_to_users, create_ssh_key, remove_key_from_users, remove_ssh_key, get_ssh_keys,
}

abbrev pub keys_in : String → List UserEntry → Option (List String)
keys_in name [] = none
keys_in name (u ∷ us) = if str_eq u.username name then some (entry_keys u) else keys_in name us

find_user-keys_in :
    (name : String) (us : List UserEntry)
    → keys_in name us ≡ (elim (find_user name us) [ none ↦ none | some u ↦ some (entry_keys u) ])
find_user-keys_in name [] = refl
find_user-keys_in name (u ∷ us) = ground (arith, find_user-keys_in name us)

add_key_to_users-keys_in :
    (name key : String) (us us' : List UserEntry)
    → add_key_to_users name key us ≡ ok us'
    → (ks : List String) × (keys_in name us ≡ some ks)
      × (str_mem key ks ≡ false)
      × (keys_in name us' ≡ some (ks ++ (key ∷ [])))
unfolding add_key_to_users
add_key_to_users-keys_in name key [] us' e = cc
add_key_to_users-keys_in name key (u ∷ us) us' e = elim (Bool-cases (str_eq u.username name)) [
  | inl here ↦ (entry_keys u, ground arith, ground arith, ground arith)
  | inr other ↦ elim (Result-cases (add_key_to_users name key us)) [
    | inl (tail, found) ↦
        let (ks, before, new, after) = add_key_to_users-keys_in name key us tail found in
        (ks, ground arith, new, ground arith)
    | inr (x, failed) ↦ absurd (ground arith)
  ]
]

str_remove_snoc :
    (key : String) (ks : List String)
    → str_mem key ks ≡ false
    → str_remove key (ks ++ (key ∷ [])) ≡ ks
unfolding str_mem str_remove
str_remove_snoc key [] h = rw eq_refl
str_remove_snoc key (k ∷ ks) h = ground (arith, str_remove_snoc key ks, eq_iff k key)

str_mem_snoc : (key : String) (ks : List String) → str_mem key (ks ++ (key ∷ [])) ≡ true
unfolding str_mem
str_mem_snoc key [] = rw eq_refl
str_mem_snoc key (k ∷ ks) = ground (arith, str_mem_snoc key ks)

-- A key that `create_ssh_key` accepted was not listed for the user before and is listed last
-- after it. (A primary user named "root" is written by one branch and read by another.)
pub create_ssh_key_shows :
    (valid : String → Bool) (name key : String) (d d' : UserData)
    → is_primary "root" d ≡ false
    → create_ssh_key valid name key d ≡ (ok tt, d')
    → (ks : List String) × (get_ssh_keys name d ≡ ok ks)
      × (str_mem key ks ≡ false)
      × (get_ssh_keys name d' ≡ ok (ks ++ (key ∷ [])))
unfolding create_ssh_key get_ssh_keys
create_ssh_key_shows valid name key d d' safe e = elim (Bool-cases (str_eq name "root")) [
  | inl is_root ↦ (
    root_keys (ensure_fields d),
    ground arith,
    ground (arith, eq_iff name "root"),
    ground (arith, eq_iff name "root"),
  )
  | inr other ↦ elim (Bool-cases (is_primary name d)) [
    | inl main ↦ (main_keys (ensure_fields d), ground arith, ground arith, ground arith)
    | inr regular ↦ elim (Result-cases (add_key_to_users name key (users_of (ensure_fields d)))) [
      | inr (x, failed) ↦ absurd (ground arith)
      | inl (us, added) ↦
          let (ks, before, new, after) =
            add_key_to_users-keys_in name key (users_of (ensure_fields d)) us added in
          (
            ks,
            ground (arith, find_user-keys_in name (users_of (ensure_fields d))),
            new,
            ground (arith, find_user-keys_in name us),
          )
    ]
  ]
]

remove_key_from_users-keys_in :
    (name key : String) (us : List UserEntry) (ks : List String)
    → keys_in name us ≡ some ks
    → str_mem key ks ≡ true
    → (us' : List UserEntry) × (remove_key_from_users name key us ≡ ok us')
      × (keys_in name us' ≡ some (str_remove key ks))
unfolding remove_key_from_users
remove_key_from_users-keys_in name key [] ks e h = cc
remove_key_from_users-keys_in name key (u ∷ us) ks e h =
    elim (Bool-cases (str_eq u.username name)) [
      | inl here ↦ (
        record u { ssh_keys = some (str_remove key (entry_keys u)) } ∷ us,
        ground arith,
        ground arith,
      )
      | inr other ↦
          let (us', done, after) = remove_key_from_users-keys_in name key us ks (rw other at e) h in
          (u ∷ us', ground arith, ground arith)
    ]

-- Removing a listed key succeeds, and takes its first occurrence off the listing.
pub remove_ssh_key_shows :
    (name key : String) (d : UserData) (ks : List String)
    → get_ssh_keys name d ≡ ok ks
    → str_mem key ks ≡ true
    → (d' : UserData) × (remove_ssh_key name key d ≡ (ok tt, d'))
      × (get_ssh_keys name d' ≡ ok (str_remove key ks))
unfolding remove_ssh_key get_ssh_keys
remove_ssh_key_shows name key d ks listed has = elim (Bool-cases (str_eq name "root")) [
  | inl is_root ↦ (set_root_keys (str_remove key ks) (ensure_fields d), ground arith, ground arith)
  | inr other ↦ elim (Bool-cases (is_primary name d)) [
    | inl main ↦ (set_main_keys (str_remove key ks) (ensure_fields d), ground arith, ground arith)
    | inr regular ↦
        let (us, done, after) =
          remove_key_from_users-keys_in name key (users_of (ensure_fields d)) ks
            (ground (arith, find_user-keys_in name (users_of (ensure_fields d)))) has in
        (
          record (ensure_fields d) { users = some us },
          ground arith,
          ground (arith, find_user-keys_in name us),
        )
  ]
]

-- Removing a key right after it was added succeeds, and leaves the user's listing as it was, where
-- the primary user is not named "root".
pub remove-create_ssh_key :
    (valid : String → Bool) (name key : String) (d d' : UserData)
    → is_primary "root" d ≡ false
    → create_ssh_key valid name key d ≡ (ok tt, d')
    → (d'' : UserData) × (remove_ssh_key name key d' ≡ (ok tt, d''))
      × (get_ssh_keys name d'' ≡ get_ssh_keys name d)
remove-create_ssh_key valid name key d d' safe e =
    let (ks, before, new, after) = create_ssh_key_shows valid name key d d' safe e in
    let (d'', done, left) =
      remove_ssh_key_shows name key d' (ks ++ (key ∷ [])) after (str_mem_snoc key ks) in
    (d'', done, left ∙ ap ok (str_remove_snoc key ks new) ∙ sym before)

add_key_to_users-keys_in_ne :
    (name key other : String) (us us' : List UserEntry)
    → add_key_to_users name key us ≡ ok us'
    → str_eq name other ≡ false
    → keys_in other us' ≡ keys_in other us
unfolding add_key_to_users
add_key_to_users-keys_in_ne name key other [] us' e ne = cc
add_key_to_users-keys_in_ne name key other (u ∷ us) us' e ne =
    elim (Bool-cases (str_eq u.username name)) [
      | inl here ↦
          ground (arith, eq_iff u.username name, eq_iff u.username other, eq_iff name other)
      | inr apart ↦ elim (Result-cases (add_key_to_users name key us)) [
        | inl (tail, found) ↦
            ground (arith, add_key_to_users-keys_in_ne name key other us tail found ne)
        | inr (x, failed) ↦ absurd (ground arith)
      ]
    ]

is_primary_ne :
    (name other : String) (d : UserData)
    → is_primary name d ≡ true
    → str_eq name other ≡ false
    → is_primary other d ≡ false
is_primary_ne name other d main ne = elim (Option-cases d.username) [
  | inl e ↦ ground arith
  | inr (u, e) ↦ ground (arith, eq_iff u name, eq_iff u other, eq_iff name other)
]

-- Adding a key to one user leaves the listing of every other user as it was.
pub create_ssh_key_others :
    (valid : String → Bool) (name key other : String) (d d' : UserData)
    → create_ssh_key valid name key d ≡ (ok tt, d')
    → str_eq name other ≡ false
    → get_ssh_keys other d' ≡ get_ssh_keys other d
unfolding create_ssh_key get_ssh_keys
create_ssh_key_others valid name key other d d' e ne = elim (Bool-cases (is_primary name d)) [
  | inl main ↦ let apart = is_primary_ne name other d main ne in ground arith
  | inr not_main ↦ elim (Bool-cases (str_eq name "root")) [
    | inl is_root ↦ ground (arith, eq_iff name "root", eq_iff other "root", eq_iff name other)
    | inr regular ↦ elim (Result-cases (add_key_to_users name key (users_of (ensure_fields d)))) [
      | inr (x, failed) ↦ absurd (ground arith)
      | inl (us, added) ↦
          let same =
            add_key_to_users-keys_in_ne name key other (users_of (ensure_fields d)) us added ne in
          ground (
            arith,
            find_user-keys_in other us,
            find_user-keys_in other (users_of (ensure_fields d)),
            same,
          )
    ]
  ]
]
