-- ===== src/Backup/SliceContents.antt =====
-- What the last slice of backups holds beside the snapshot of the API.
use selfprivacy_api.Base.{
  ℕ, String, ◌≡◌, refl, ap, ◌∙◌, inl, inr, Bool, true, false, ◌&&◌, not, List, [], ◌∷◌, ◌++◌, arith,
  str_eq, eq_iff, Bool-cases, keep, all,
}
use selfprivacy_api.Backup.Model.{Snapshot, insert_newest, sort_newest}
use selfprivacy_api.Backup.Storage.{BackupStore, get_snapshots, get_cached_snapshots}
use selfprivacy_api.Backup.ServiceJobs.{Service}
use selfprivacy_api.Backup.Slice.{
  manager_id, is_same_slice, newest_first, first_in_slice, slice_of_services,
}

module _ {A : Type 0} (p : A → Bool) where
  all-append : (xs ys : List A) → all p (xs ++ ys) ≡ (all p xs && all p ys)
  all-append [] ys = refl
  all-append (x ∷ xs) ys = ground (arith, all-append xs ys)

  all-keep : (xs : List A) → all p (keep p xs) ≡ true
  all-keep [] = refl
  all-keep (x ∷ xs) = ground (arith, all-keep xs)

  all-insert_newest :
      (date : A → ℕ) (x : A) (xs : List A) → all p (insert_newest date x xs) ≡ (p x && all p xs)
  unfolding insert_newest
  all-insert_newest date x [] = refl
  all-insert_newest date x (y ∷ ys) = ground (arith, all-insert_newest date x ys)

  all-sort_newest : (date : A → ℕ) (xs : List A) → all p (sort_newest date xs) ≡ all p xs
  unfolding sort_newest
  all-sort_newest date [] = refl
  all-sort_newest date (x ∷ xs) =
      all-insert_newest date x (sort_newest date xs) ∙ ap (◌&&◌ (p x)) (all-sort_newest date xs)

-- The snapshots of a service bear its id, sorted or not.
pub sorted_snapshots-all :
    (id : String) (s : BackupStore)
    → all (λ x. str_eq x.service_name id) (newest_first (get_snapshots id s)) ≡ true
unfolding get_snapshots
sorted_snapshots-all id s =
    all-sort_newest (λ x. str_eq x.service_name id) (λ x. x.created_at)
      (keep (λ x. str_eq x.service_name id) (get_cached_snapshots s))
    ∙ all-keep (λ x. str_eq x.service_name id) (get_cached_snapshots s)

-- A snapshot of another service than the API's, within one period of the API's snapshot.
abbrev pub is_beside : Snapshot → BackupStore → Snapshot → Bool
is_beside api_snap s x = not (str_eq x.service_name manager_id) && is_same_slice x api_snap s

first_in_slice-all :
    (id : String) (api_snap : Snapshot) (s : BackupStore) (snaps : List Snapshot)
    → str_eq id manager_id ≡ false
    → all (λ x. str_eq x.service_name id) snaps ≡ true
    → all (is_beside api_snap s) (first_in_slice api_snap s snaps) ≡ true
first_in_slice-all id api_snap s [] other own = refl
first_in_slice-all id api_snap s (x ∷ xs) other own =
    ground (arith, eq_iff x.service_name id, eq_iff x.service_name manager_id, eq_iff id manager_id)

pub slice_of_services-all :
    (services : List Service) (api_snap : Snapshot) (s : BackupStore)
    → all (is_beside api_snap s) (slice_of_services services api_snap s) ≡ true
unfolding slice_of_services
slice_of_services-all [] api_snap s = refl
slice_of_services-all (v ∷ vs) api_snap s = elim (Bool-cases (str_eq v.id manager_id)) [
  | inl manager ↦ rw manager (slice_of_services-all vs api_snap s)
  | inr other ↦
      let rest = slice_of_services vs api_snap s in
      let own = first_in_slice api_snap s (newest_first (get_snapshots v.id s)) in
      let here = first_in_slice-all v.id api_snap s _ other (sorted_snapshots-all v.id s) in
      let there = slice_of_services-all vs api_snap s in
      rw other (all-append (is_beside api_snap s) own rest ∙ rw (here, there) refl)
]
