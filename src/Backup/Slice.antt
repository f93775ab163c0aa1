-- ===== src/Backup/Slice.antt =====
-- The snapshots of a full restore: `Backups.is_same_slice` and `last_backup_slice`
-- (selfprivacy_api/backup/__init__.py), and `which_snapshots_to_full_restore`
-- (selfprivacy_api/backup/tasks.py).
use selfprivacy_api.Base.{
  ℕ, zero, suc, ◌+◌, ◌*◌, String, Bool, true, false, Option, none, some, List, [], ◌∷◌, ◌++◌,
  str_eq, ltb, if◌then◌else◌, keep, length, Result, ok, err,
}
use selfprivacy_api.Backup.Model.{Snapshot, snapshot_eq, sort_newest}
use selfprivacy_api.Backup.Storage.{BackupStore, autobackup_period_minutes, get_snapshots}
use selfprivacy_api.Backup.ServiceJobs.{Service, BackupError, value_error}

-- `ServiceManager.get_id()`
abbrev pub manager_id : String
manager_id = "selfprivacy-api"

-- A day, where automatic backups are off.
abbrev pub slice_minutes : Option ℕ → ℕ
slice_minutes none = 24 * 60
slice_minutes (some period) = period

unfoldable pub is_same_slice : Snapshot → Snapshot → BackupStore → Bool
unfolding autobackup_period_minutes
is_same_slice snap1 snap2 s =
    let seconds = slice_minutes (autobackup_period_minutes s) * 60 in
    if ltb (snap2.created_at + seconds) snap1.created_at
    then false
    else if ltb (snap1.created_at + seconds) snap2.created_at
    then false
    else true

-- `snaps.sort(key=lambda x: x.created_at, reverse=True)`
abbrev pub newest_first : List Snapshot → List Snapshot
newest_first snaps = sort_newest (λ x. x.created_at) snaps

-- The newest snapshot of the list, if it is in the slice.
abbrev pub first_in_slice : Snapshot → BackupStore → List Snapshot → List Snapshot
first_in_slice api_snap s [] = []
first_in_slice api_snap s (snap ∷ _) = if is_same_slice snap api_snap s then snap ∷ [] else []

-- The loop over the services; the one with the id of `ServiceManager` is its only instance.
unfoldable pub slice_of_services : List Service → Snapshot → BackupStore → List Snapshot
unfolding get_snapshots sort_newest is_same_slice
slice_of_services [] api_snap s = []
slice_of_services (service ∷ services) api_snap s =
    let rest = slice_of_services services api_snap s in
    if str_eq service.id manager_id
    then rest
    else first_in_slice api_snap s (newest_first (get_snapshots service.id s)) ++ rest

unfoldable pub last_backup_slice : List Service → BackupStore → List Snapshot
unfolding slice_of_services get_snapshots sort_newest
last_backup_slice all_services s = elim (newest_first (get_snapshots manager_id s)) [
  | [] ↦ []
  | api_snap ∷ _ ↦ slice_of_services all_services api_snap s ++ (api_snap ∷ [])
]

abbrev pub nth : ℕ → List Snapshot → Option Snapshot
nth i [] = none
nth zero (x ∷ xs) = some x
nth (suc i) (x ∷ xs) = nth i xs

-- `autoslice.remove(snap)`
unfoldable pub remove_snapshot : Snapshot → List Snapshot → List Snapshot
remove_snapshot snap [] = []
remove_snapshot snap (x ∷ xs) = if snapshot_eq x snap then xs else x ∷ remove_snapshot snap xs

-- The `for` loop that removes from the list it goes over, as Python runs it: by position. One
-- round per position, and the list never grows.
unfoldable pub take_api_snapshot :
    (fuel i : ℕ) → List Snapshot → Option Snapshot → List Snapshot × Option Snapshot
unfolding remove_snapshot
take_api_snapshot zero i slice found = (slice, found)
take_api_snapshot (suc fuel) i slice found = elim (nth i slice) [
  | none ↦ (slice, found)
  | some snap ↦
      let matches = str_eq snap.service_name manager_id in
      take_api_snapshot fuel (i + 1) (if matches then remove_snapshot snap slice else slice)
        (if matches then some snap else found)
]

-- `find_service` is `ServiceManager.get_service_by_id`.
unfoldable pub eligible_for_full_restoration :
    (find_service : String → Option Service) → Snapshot → Bool
eligible_for_full_restoration find_service snap = elim (find_service snap.service_name) [
  | none ↦ false
  | some service ↦ service.is_enabled
]

unfoldable pub which_snapshots_to_full_restore :
    (find_service : String → Option Service) → List Snapshot → Result BackupError (List Snapshot)
unfolding take_api_snapshot
which_snapshots_to_full_restore find_service autoslice =
    let (left, found) = take_api_snapshot (length autoslice) 0 autoslice none in
    elim found [
      | none ↦ err value_error
      | some api_snapshot ↦
          ok (keep (eligible_for_full_restoration find_service) left ++ (api_snapshot ∷ []))
    ]
