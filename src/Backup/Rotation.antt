-- ===== src/Backup/Rotation.antt =====
-- `Backups._prune_snaps_with_quotas`, `_prune_auto_snaps` and `_standardize_quotas`
-- (selfprivacy_api/backup/__init__.py). The calendar of `datetime` is a parameter.
use selfprivacy_api.Base.{
  ℕ, zero, suc, ◌+◌, ◌*◌, Bool, true, false, ◌&&◌, ◌||◌, not, List, [], ◌∷◌, ◌==◌, if◌then◌else◌,
  keep, any,
}
use selfprivacy_api.Base.Int.{ℤ, pos, negsuc}
use selfprivacy_api.Backup.Model.{Snapshot, snapshot_eq, AutobackupQuotas, sort_newest}

-- `date.year`, `date.month`, `date.day` and `date.isocalendar()[1]`
pub record Calendar : Type 0 where
  pub year : ℕ → ℕ
  pub month : ℕ → ℕ
  pub day : ℕ → ℕ
  pub iso_week : ℕ → ℕ

-- The five rotation lambdas.
pub data Rotation : Type 0 where
  by_index by_day by_week by_month by_year : Rotation

pub record RotationBucket : Type 0 where
  pub counter : ℤ
  pub last : ℤ
  pub rotation : Rotation

unfoldable pub rotation_value : Calendar → Rotation → ℕ → ℕ → ℕ
rotation_value cal by_index date index = index
rotation_value cal by_day date index = cal.year date * 10000 + cal.month date * 100 + cal.day date
rotation_value cal by_week date index = cal.year date * 100 + cal.iso_week date
rotation_value cal by_month date index = cal.year date * 100 + cal.month date
rotation_value cal by_year date index = cal.year date

-- `(bucket.counter > 0) or (bucket.counter == -1)`
abbrev pub is_open : ℤ → Bool
is_open (pos zero) = false
is_open (pos (suc _)) = true
is_open (negsuc zero) = true
is_open (negsuc (suc _)) = false

-- `if bucket.counter > 0: bucket.counter -= 1`
abbrev pub spend : ℤ → ℤ
spend (pos (suc n)) = pos n
spend c = c

abbrev pub last_eq : ℤ → ℕ → Bool
last_eq (pos n) v = n == v
last_eq (negsuc _) v = false

-- One round of the inner loop: the bucket after it, and whether it asks to keep the snapshot.
unfoldable pub visit_bucket :
    Calendar → (index : ℕ) (is_last : Bool) → Snapshot → RotationBucket → RotationBucket × Bool
visit_bucket cal index is_last snap b =
    let val = rotation_value cal b.rotation snap.created_at index in
    if is_open b.counter && (not (last_eq b.last val) || is_last)
    then (record b { last = pos val; counter = spend b.counter }, true)
    else (b, false)

unfoldable pub visit_buckets :
    Calendar
    → (index : ℕ) (is_last : Bool) → Snapshot
    → List RotationBucket
    → List RotationBucket × Bool
visit_buckets cal index is_last snap [] = ([], false)
visit_buckets cal index is_last snap (b ∷ bs) =
    let (b', kept) = visit_bucket cal index is_last snap b in
    let (bs', more) = visit_buckets cal index is_last snap bs in (b' ∷ bs', kept || more)

abbrev pub is_nil {ℓ} : {A : Type ℓ} → List A → Bool
is_nil [] = true
is_nil (_ ∷ _) = false

-- The outer loop; `i == len(sorted_snaps) - 1` where no snapshot follows.
unfoldable pub prune_loop : Calendar → ℕ → List RotationBucket → List Snapshot → List Snapshot
prune_loop cal i buckets [] = []
prune_loop cal i buckets (snap ∷ snaps) =
    let (buckets', keep_snap) = visit_buckets cal i (is_nil snaps) snap buckets in
    let rest = prune_loop cal (i + 1) buckets' snaps in if keep_snap then snap ∷ rest else rest

abbrev pub bucket : ℤ → Rotation → RotationBucket
bucket quota rotation = record { counter = quota; last = negsuc 0; rotation = rotation }

unfoldable pub start_buckets : AutobackupQuotas → List RotationBucket
start_buckets q =
    bucket q.last by_index
    ∷ bucket q.daily by_day
    ∷ bucket q.weekly by_week
    ∷ bucket q.monthly by_month
    ∷ bucket q.yearly by_year
    ∷ []

-- The quotas are `Backups.autobackup_quotas()`.
unfoldable pub prune_snaps_with_quotas : Calendar → AutobackupQuotas → List Snapshot → List Snapshot
unfolding prune_loop start_buckets sort_newest
prune_snaps_with_quotas cal quotas snapshots =
    prune_loop cal 0 (start_buckets quotas) (sort_newest (λ s. s.created_at) snapshots)

-- What `_prune_auto_snaps` hands to `forget_snapshots`.
unfoldable pub deletable_snaps : Calendar → AutobackupQuotas → List Snapshot → List Snapshot
deletable_snaps cal quotas auto_snaps =
    let new_snaplist = prune_snaps_with_quotas cal quotas auto_snaps in
    keep (λ s. not (any (λ t. snapshot_eq t s) new_snaplist)) auto_snaps

unfoldable pub standardize_quotas : ℤ → ℤ
standardize_quotas (negsuc _) = negsuc 0
standardize_quotas (pos n) = pos n
