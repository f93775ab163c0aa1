-- ===== src/Backup/Model.antt =====
-- Snapshots and quotas (selfprivacy_api/models/backup/snapshot.py,
-- selfprivacy_api/graphql/common_types/backup.py), and the sort by creation date that the code
-- makes with `sorted(..., reverse=True)`. Dates are seconds of UTC.
use selfprivacy_api.Base.{
  ℕ, String, Bool, true, false, ◌&&◌, List, [], ◌∷◌, str_eq, leb, ◌==◌, if◌then◌else◌,
}
use selfprivacy_api.Base.Int.{ℤ}

pub data BackupReason : Type 0 where
  explicit auto pre_restore : BackupReason

abbrev pub reason_eq : BackupReason → BackupReason → Bool
reason_eq explicit explicit = true
reason_eq auto auto = true
reason_eq pre_restore pre_restore = true
reason_eq _ _ = false

pub record Snapshot : Type 0 where
  pub id : String
  pub service_name : String
  pub created_at : ℕ
  pub reason : BackupReason

-- `Snapshot.__eq__`
unfoldable pub snapshot_eq : Snapshot → Snapshot → Bool
snapshot_eq a b =
    str_eq a.id b.id
    && str_eq a.service_name b.service_name
    && a.created_at == b.created_at
    && reason_eq a.reason b.reason

pub record AutobackupQuotas : Type 0 where
  pub last : ℤ
  pub daily : ℤ
  pub weekly : ℤ
  pub monthly : ℤ
  pub yearly : ℤ

-- A stable sort, newest first: an item goes before those of its own date that follow it.
unfoldable pub insert_newest {ℓ} : {A : Type ℓ} → (A → ℕ) → A → List A → List A
insert_newest date x [] = x ∷ []
insert_newest date x (y ∷ ys) =
    let later = insert_newest date x ys in if leb (date y) (date x) then x ∷ y ∷ ys else y ∷ later

unfoldable pub sort_newest {ℓ} : {A : Type ℓ} → (A → ℕ) → List A → List A
unfolding insert_newest
sort_newest date [] = []
sort_newest date (x ∷ xs) = insert_newest date x (sort_newest date xs)
