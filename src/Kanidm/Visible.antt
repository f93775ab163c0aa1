-- ===== src/Kanidm/Visible.antt =====
-- What the listing of Kanidm users shows (`KanidmUserRepository.get_users`).
use mathlib.Core.Path.{subst}
use selfprivacy_api.Base.{
  String, ◌≡◌, refl, sym, ap, ◌∙◌, inl, inr, Bool, true, false, not, ◌&&◌, List, [], ◌∷◌, arith,
  Bool-cases, str_mem, str_mem-keep, Result, ok, err, ◌>>=◌, bind-inv,
}
use selfprivacy_api.Users.Data.{UserDataUser, keys_or_empty}
use selfprivacy_api.Kanidm.Server.{Entry, Kanidm, KanidmError, World, Call, get_method, no_data}
use selfprivacy_api.Kanidm.Token.{lift_result}
use selfprivacy_api.Kanidm.Query.{send_query}
use selfprivacy_api.Kanidm.Person.{
  Attrs, attrs_or_empty, is_default_group, remove_default_groups, check_list,
  check_user_origin_by_memberof, is_primary_origin, user_of_attrs, users_of_entries, groups_of,
  first_of, first_or_none, then_result,
}
use selfprivacy_api.Kanidm.Repo.{get_users}

-- Not the primary user where that is left out, and no default group among the memberships.
abbrev pub IsShown : Bool → UserDataUser → Type 0
IsShown exclude_primary u =
    ((exclude_primary && is_primary_origin u.user_type) ≡ false)
    × ((g : String)
        → is_default_group g ≡ true
        → str_mem g (keys_or_empty u.directmemberof) ≡ false)
    × ((g : String) → is_default_group g ≡ true → str_mem g (keys_or_empty u.memberof) ≡ false)

abbrev pub AllShown : Bool → List UserDataUser → Type 0
AllShown exclude_primary [] = Unit
AllShown exclude_primary (u ∷ us) = IsShown exclude_primary u × AllShown exclude_primary us

then_result-ok :
    {A B : Type 0} (r : Result KanidmError A) (f : A → Result KanidmError B) {b : B}
    → then_result r f ≡ ok b
    → (a : A) × (r ≡ ok a) × (f a ≡ ok b)
then_result-ok (ok a) f h = (a, refl, h)
then_result-ok (err e) f h = cc

remove_default_groups-none :
    (groups : List String) (g : String)
    → is_default_group g ≡ true
    → str_mem g (remove_default_groups groups) ≡ false
unfolding remove_default_groups
remove_default_groups-none groups g named =
    ground (arith, str_mem-keep (λ x. not (is_default_group x)) g groups)

ok-injective : {E A : Type 0} {x y : A} → ◌≡◌ {A = Result E A} (ok x) (ok y) → x ≡ y
ok-injective h = cc

user_of_attrs-IsShown :
    (exclude_primary : Bool) (attrs : Attrs) (u : UserDataUser)
    → (exclude_primary
        && is_primary_origin (check_user_origin_by_memberof (groups_of "memberof" attrs)))
      ≡ false
    → user_of_attrs attrs ≡ ok u
    → IsShown exclude_primary u
unfolding user_of_attrs
user_of_attrs-IsShown exclude_primary attrs u fine made =
    let (name, named, made1) = then_result-ok (first_of "name" attrs) _ made in
    let (display_name, displayed, made2) =
      then_result-ok (first_or_none "displayname" attrs) _ made1 in
    let (email, mailed, made3) = then_result-ok (first_or_none "mail" attrs) _ made2 in
    let same = ok-injective made3 in
    (
      ap (λ (x : UserDataUser). exclude_primary && is_primary_origin x.user_type) (sym same) ∙ fine,
      λ g named'.
          ap (λ (x : UserDataUser). str_mem g (keys_or_empty x.directmemberof)) (sym same)
          ∙ remove_default_groups-none (groups_of "directmemberof" attrs) g named',
      λ g named'.
          ap (λ (x : UserDataUser). str_mem g (keys_or_empty x.memberof)) (sym same)
          ∙ remove_default_groups-none (groups_of "memberof" attrs) g named',
    )

users_of_entries-AllShown :
    (exclude_primary : Bool) (es : List Entry) (us : List UserDataUser)
    → users_of_entries exclude_primary es ≡ ok us
    → AllShown exclude_primary us
unfolding users_of_entries
users_of_entries-AllShown exclude_primary [] us made =
    subst (AllShown exclude_primary) (ok-injective made) tt
users_of_entries-AllShown exclude_primary (e ∷ es) us made =
    let attrs = attrs_or_empty e in
    elim (Bool-cases (
      exclude_primary
      && is_primary_origin (check_user_origin_by_memberof (groups_of "memberof" attrs)))) [
        | inl left_out ↦ users_of_entries-AllShown exclude_primary es us (rw left_out at made)
        | inr fine ↦
            let (u, first, made1) = then_result-ok (user_of_attrs attrs) _ (rw fine at made) in
            let (us', others, made2) =
              then_result-ok (users_of_entries exclude_primary es) _ made1 in
            subst (AllShown exclude_primary) (ok-injective made2) (
              user_of_attrs-IsShown exclude_primary attrs u fine first,
              users_of_entries-AllShown exclude_primary es us' others,
            )
      ]

module _ {R : Type 0} where
  lift_result-ok :
      {A : Type 0} (r : Result KanidmError A) (w : World R) {a : A} {w' : World R}
      → lift_result r w ≡ (ok a, w')
      → r ≡ ok a
  lift_result-ok r w h = ap (λ q. q.0) h

  -- A user of the listing has no default group among the direct or indirect memberships, and is not
  -- the primary user where the caller leaves that user out.
  pub get_users-AllShown :
      (k : Kanidm R) (exclude_primary : Bool) (w w' : World R) (us : List UserDataUser)
      → get_users k exclude_primary w ≡ (ok us, w')
      → AllShown exclude_primary us
  unfolding get_users
  get_users-AllShown k exclude_primary w w' us run =
      let pick : List Entry → Call R (List UserDataUser) =
        λ es. lift_result (users_of_entries exclude_primary es) in
      let (data_, w1, asked, run1) =
        bind-inv (send_query k get_method "person" no_data)
          (λ data_. lift_result (check_list data_) >>= pick) run in
      let (es, w2, listed, run2) = bind-inv (lift_result (check_list data_)) pick run1 in
      users_of_entries-AllShown exclude_primary es us
        (lift_result-ok (users_of_entries exclude_primary es) w2 run2)
