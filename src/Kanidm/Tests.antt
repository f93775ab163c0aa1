-- ===== src/Kanidm/Tests.antt =====
-- The theorems on Kanidm at concrete inputs: a server that refuses one token.
use selfprivacy_api.Base.{
  ℕ, suc, ◌≡◌, refl, true, false, none, some, List, [], ◌∷◌, str_eq, if◌then◌else◌, Result, ok, err,
}
use selfprivacy_api.Users.Data.{UserDataUser}
use selfprivacy_api.Kanidm.Server.{
  Entry, Json, text, entries, get_method, no_data, reply, output, KanidmError, Kanidm, World,
}
use selfprivacy_api.Kanidm.Query.{send_query}
use selfprivacy_api.Kanidm.Repo.{get_users}
use selfprivacy_api.Kanidm.Retry.{rotated_token_recovers}
use selfprivacy_api.Kanidm.Visible.{AllShown, get_users-AllShown}

abbrev alice : Entry
alice = record {
  attrs = some (
      ("name", "alice" ∷ [])
      ∷ ("memberof", "sp.full_users@example.org" ∷ "idm_all_persons@example.org" ∷ [])
      ∷ ("directmemberof", "sp.full_users@example.org" ∷ "idm_all_persons@example.org" ∷ [])
      ∷ []);
  token = none;
  conflicting = false;
}

abbrev owner : Entry
owner = record {
  attrs = some (("name", "owner" ∷ []) ∷ ("memberof", "sp.admins@example.org" ∷ []) ∷ []);
  token = none;
  conflicting = false;
}

abbrev persons : Json
persons = entries (alice ∷ owner ∷ [])

-- The remote counts the requests.
abbrev server : Kanidm ℕ
server = record {
  domain = "example.org";
  token_file = some "new";
  request = λ method endpoint payload token n. (
    if str_eq token "old" then reply 401 (text "notauthenticated") else reply 200 persons,
    suc n,
  );
  recover_account = λ n. (output (some "p"), n);
  login = λ password n. (true, n);
  generate_token = λ n. (some ("made" ∷ []), n);
}

abbrev stale : World ℕ
stale = record { redis_token = some "old"; remote = 0 }

rotated_token_recovers_example :
    send_query server get_method "person" no_data stale
    ≡ (ok persons, record { redis_token = some "new"; remote = 3 })
rotated_token_recovers_example =
    rotated_token_recovers server get_method "person" no_data stale "old" "new" 401 persons persons
      1 2 3 refl refl refl refl refl refl refl

abbrev listing : Result KanidmError (List UserDataUser) × World ℕ
listing = get_users server true stale

abbrev listed : List UserDataUser
listed = elim listing.0 [ ok us ↦ us | err e ↦ [] ]

get_users-AllShown_example : AllShown true listed
unfolding get_users send_query
get_users-AllShown_example = get_users-AllShown server true stale listing.1 listed refl
