-- ===== src/Backup/Storage.antt =====
-- `Storage` (selfprivacy_api/backup/storage.py) and the methods of `Backups` over the snapshot
-- cache. A Redis hash of a model is kept as the model. What the repository of the provider lists
-- is an argument.
use selfprivacy_api.Base.{
  ℕ, String, Bool, true, false, Option, none, some, List, [], ◌∷◌, map, str_eq, Dict, lookup,
  insert, erase, values, keep,
}
use selfprivacy_api.Base.Int.{negsuc}
use selfprivacy_api.Backup.Model.{auto, reason_eq, Snapshot, AutobackupQuotas}
use selfprivacy_api.Backup.Rotation.{standardize_quotas}

-- `BackupProviderModel`
pub record BackupProvider : Type 0 where
  pub kind : String
  pub login : String
  pub key : String
  pub location : String
  pub repo_id : String

pub record BackupStore : Type 0 where
  pub provider : Option BackupProvider
  pub period : Option ℕ
  pub initted : Bool
  pub quotas : Option AutobackupQuotas
  pub snapshots : Dict Snapshot
  pub last_backups : Dict Snapshot

unfoldable pub reset_storage : BackupStore → BackupStore
reset_storage s = record {
  provider = none;
  period = none;
  initted = false;
  quotas = none;
  snapshots = [];
  last_backups = [];
}

unfoldable pub invalidate_snapshot_storage : BackupStore → BackupStore
invalidate_snapshot_storage s = record s { snapshots = [] }

unfoldable pub get_last_backup_time : String → BackupStore → Option ℕ
get_last_backup_time service_id s = elim (lookup service_id s.last_backups) [
  | none ↦ none
  | some snap ↦ some snap.created_at
]

unfoldable pub store_last_timestamp : String → Snapshot → BackupStore → BackupStore
store_last_timestamp service_id snap s = record s {
  last_backups = insert service_id snap s.last_backups;
}

unfoldable pub cache_snapshot : Snapshot → BackupStore → BackupStore
cache_snapshot snap s = record s { snapshots = insert snap.id snap s.snapshots }

unfoldable pub delete_cached_snapshot : Snapshot → BackupStore → BackupStore
delete_cached_snapshot snap s = record s { snapshots = erase snap.id s.snapshots }

unfoldable pub get_cached_snapshot_by_id : String → BackupStore → Option Snapshot
get_cached_snapshot_by_id id s = lookup id s.snapshots

unfoldable pub get_cached_snapshots : BackupStore → List Snapshot
get_cached_snapshots s = values s.snapshots

unfoldable pub autobackup_period_minutes : BackupStore → Option ℕ
autobackup_period_minutes s = s.period

unfoldable pub store_autobackup_period_minutes : ℕ → BackupStore → BackupStore
store_autobackup_period_minutes minutes s = record s { period = some minutes }

unfoldable pub delete_backup_period : BackupStore → BackupStore
delete_backup_period s = record s { period = none }

unfoldable pub load_provider : BackupStore → Option BackupProvider
load_provider s = s.provider

unfoldable pub store_provider : BackupProvider → BackupStore → BackupStore
store_provider p s = record s { provider = some p }

unfoldable pub has_init_mark : BackupStore → Bool
has_init_mark s = s.initted

unfoldable pub mark_as_init : BackupStore → BackupStore
mark_as_init s = record s { initted = true }

unfoldable pub mark_as_uninitted : BackupStore → BackupStore
mark_as_uninitted s = record s { initted = false }

unfoldable pub store_quotas : AutobackupQuotas → BackupStore → BackupStore
store_quotas q s = record s { quotas = some q }

-- Without stored quotas all are unlimited.
unfoldable pub autobackup_quotas : BackupStore → AutobackupQuotas
autobackup_quotas s = elim s.quotas [
  | none ↦ record {
    last = negsuc 0;
    daily = negsuc 0;
    weekly = negsuc 0;
    monthly = negsuc 0;
    yearly = negsuc 0;
  }
  | some q ↦ q
]

-- `Backups.set_autobackup_quotas`
unfoldable pub set_autobackup_quotas : AutobackupQuotas → BackupStore → BackupStore
unfolding store_quotas standardize_quotas
set_autobackup_quotas q = store_quotas (record {
  last = standardize_quotas q.last;
  daily = standardize_quotas q.daily;
  weekly = standardize_quotas q.weekly;
  monthly = standardize_quotas q.monthly;
  yearly = standardize_quotas q.yearly;
})

-- `for snapshot in upstream_snapshots: Storage.cache_snapshot(snapshot)`
unfoldable pub cache_all : List Snapshot → BackupStore → BackupStore
unfolding cache_snapshot
cache_all [] s = s
cache_all (x ∷ xs) s = cache_all xs (cache_snapshot x s)

unfoldable pub force_snapshot_cache_reload : (upstream : List Snapshot) → BackupStore → BackupStore
unfolding cache_all invalidate_snapshot_storage
force_snapshot_cache_reload upstream s = cache_all upstream (invalidate_snapshot_storage s)

-- One more try with a fresh cache where the id is not cached.
unfoldable pub get_snapshot_by_id :
    (upstream : List Snapshot) → String → BackupStore → Option Snapshot × BackupStore
unfolding get_cached_snapshot_by_id force_snapshot_cache_reload
get_snapshot_by_id upstream id s = elim (get_cached_snapshot_by_id id s) [
  | some snap ↦ (some snap, s)
  | none ↦ let s' = force_snapshot_cache_reload upstream s in (get_cached_snapshot_by_id id s', s')
]

unfoldable pub get_snapshots : String → BackupStore → List Snapshot
unfolding get_cached_snapshots
get_snapshots service_id s = keep (λ x. str_eq x.service_name service_id) (get_cached_snapshots s)

unfoldable pub auto_snaps : String → BackupStore → List Snapshot
unfolding get_snapshots
auto_snaps service_id s = keep (λ x. reason_eq x.reason auto) (get_snapshots service_id s)

-- `forget` is the provider's: what it lists once the ids are gone.
unfoldable pub forget_snapshots :
    (forget : List String → List Snapshot) → List Snapshot → BackupStore → BackupStore
unfolding force_snapshot_cache_reload
forget_snapshots forget [] s = s
forget_snapshots forget (x ∷ xs) s =
    force_snapshot_cache_reload (forget (map (λ (y : Snapshot). y.id) (x ∷ xs))) s

unfoldable pub on_new_snapshot_created :
    (upstream : List Snapshot) → String → Snapshot → BackupStore → BackupStore
unfolding force_snapshot_cache_reload store_last_timestamp
on_new_snapshot_created upstream service_id snap s =
    force_snapshot_cache_reload upstream (store_last_timestamp service_id snap s)
