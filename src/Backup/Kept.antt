-- ===== src/Backup/Kept.antt =====
-- What the rotation keeps: in order, at most as many as the quotas allow, all under an unlimited
-- quota, and always the newest.
use mathlib.Core.List.Perm
use mathlib.Core.List.{head?, Perm}
use selfprivacy_api.Base.{
  not, ◌&&◌, ℕ, ◌+◌, ◌≤◌, ◌≡◌, refl, ap, inl, inr, Bool, true, false, ◌||◌, List, [], ◌∷◌, arith,
  leb, Bool-cases, length,
}
use selfprivacy_api.Base.Int.{ℤ, pos, negsuc}
use selfprivacy_api.Backup.Model.{Snapshot, AutobackupQuotas, insert_newest, sort_newest}
use selfprivacy_api.Backup.Rotation.{
  is_open, Calendar, by_index, RotationBucket, rotation_value, visit_bucket, visit_buckets,
  start_buckets, prune_loop, prune_snaps_with_quotas, is_nil, last_eq,
}

-- The first list is the second with some items left out.
pub data Subseq {ℓ} {A : Type ℓ} : List A → List A → Type ℓ where
  done : Subseq [] []
  take_one : {x : A} {xs ys : List A} → Subseq xs ys → Subseq (x ∷ xs) (x ∷ ys)
  skip_one : {y : A} {xs ys : List A} → Subseq xs ys → Subseq xs (y ∷ ys)

insert_newest-perm {ℓ} :
    {A : Type ℓ} (date : A → ℕ) (x : A) (xs : List A) → Perm (insert_newest date x xs) (x ∷ xs)
unfolding insert_newest
insert_newest-perm date x [] = Perm.refl (x ∷ [])
insert_newest-perm date x (y ∷ ys) = elim (Bool-cases (leb (date y) (date x))) [
  | inl newer ↦ rw newer (Perm.refl (x ∷ y ∷ ys))
  | inr older ↦
      rw older (Perm.trans (Perm.cons y (insert_newest-perm date x ys)) (Perm.swap x y ys))
]

-- The sort neither loses nor doubles anything.
pub sort_newest-perm {ℓ} : {A : Type ℓ} (date : A → ℕ) (xs : List A) → Perm (sort_newest date xs) xs
unfolding sort_newest
sort_newest-perm date [] = Perm.refl []
sort_newest-perm date (x ∷ xs) =
    Perm.trans (insert_newest-perm date x (sort_newest date xs))
      (Perm.cons x (sort_newest-perm date xs))

prune_loop-Subseq :
    (cal : Calendar) (i : ℕ) (bs : List RotationBucket) (snaps : List Snapshot)
    → Subseq (prune_loop cal i bs snaps) snaps
unfolding prune_loop
prune_loop-Subseq cal i bs [] = done
prune_loop-Subseq cal i bs (s ∷ snaps) =
    let (bs', k) = visit_buckets cal i (is_nil snaps) s bs in
    let ih = prune_loop-Subseq cal (i + 1) bs' snaps in
    elim (Bool-cases k) [
      | inl kept ↦ rw kept (take_one ih)
      | inr dropped ↦ rw dropped (skip_one ih)
    ]

-- The kept snapshots are some of those given, each at most as often as it was given.
pub prune_keeps_given :
    (cal : Calendar) (q : AutobackupQuotas) (snaps : List Snapshot)
    → (sorted : List Snapshot) × Subseq (prune_snaps_with_quotas cal q snaps) sorted
      × Perm sorted snaps
unfolding prune_snaps_with_quotas
prune_keeps_given cal q snaps = (
  sort_newest (λ s. s.created_at) snaps,
  prune_loop-Subseq cal 0 (start_buckets q) _,
  sort_newest-perm (λ s. s.created_at) snaps,
)

abbrev pub pos_part : ℤ → ℕ
pos_part (pos n) = n
pos_part (negsuc _) = 0

abbrev is_limited : ℤ → Bool
is_limited (pos _) = true
is_limited (negsuc _) = false

-- What a list of limited buckets may still keep.
abbrev budget : List RotationBucket → ℕ
budget [] = 0
budget (b ∷ bs) = pos_part b.counter + budget bs

abbrev IsLimited : List RotationBucket → Type 0
IsLimited [] = Unit
IsLimited (b ∷ bs) = (is_limited b.counter ≡ true) × IsLimited bs

abbrev count_of : Bool → ℕ
count_of true = 1
count_of false = 0

visit_bucket-budget :
    (cal : Calendar) (i : ℕ) (is_last : Bool) (s : Snapshot) (b : RotationBucket)
    → is_limited b.counter ≡ true
    → let (b', kept) = visit_bucket cal i is_last s b in
      (is_limited b'.counter ≡ true) × (pos_part b'.counter + count_of kept ≤ pos_part b.counter)
unfolding visit_bucket
visit_bucket-budget cal i is_last s b h = ground arith

count_of-or : (a b : Bool) → count_of (a || b) ≤ count_of a + count_of b
count_of-or a b = ground arith

-- A snapshot that is kept costs at least one of the buckets a unit.
visit_buckets-budget :
    (cal : Calendar) (i : ℕ) (is_last : Bool) (s : Snapshot) (bs : List RotationBucket)
    → IsLimited bs
    → let (bs', kept) = visit_buckets cal i is_last s bs in
      IsLimited bs' × (budget bs' + count_of kept ≤ budget bs)
unfolding visit_buckets
visit_buckets-budget cal i is_last s [] h = (tt, omega arith)
visit_buckets-budget cal i is_last s (b ∷ bs) (h, hs) =
    let (b', k) = visit_bucket cal i is_last s b in
    let (bs', more) = visit_buckets cal i is_last s bs in
    let one = visit_bucket-budget cal i is_last s b h in
    let all_ = visit_buckets-budget cal i is_last s bs hs in
    ((one.0, all_.0), omega (arith, one.1, all_.1, count_of-or k more))

prune_loop-budget :
    (cal : Calendar) (i : ℕ) (bs : List RotationBucket) (snaps : List Snapshot)
    → IsLimited bs
    → length (prune_loop cal i bs snaps) ≤ budget bs
unfolding prune_loop
prune_loop-budget cal i bs [] h = omega arith
prune_loop-budget cal i bs (s ∷ snaps) h =
    let (bs', k) = visit_buckets cal i (is_nil snaps) s bs in
    let spent = visit_buckets-budget cal i (is_nil snaps) s bs h in
    ground (arith, spent.1, prune_loop-budget cal (i + 1) bs' snaps spent.0)

-- Under five limits, no more snapshots are kept than the limits add up to; with all of them zero,
-- none is.
pub prune-le-quotas :
    (cal : Calendar) (last daily weekly monthly yearly : ℕ) (snaps : List Snapshot)
    → let quotas : AutobackupQuotas = record {
      last = pos last;
      daily = pos daily;
      weekly = pos weekly;
      monthly = pos monthly;
      yearly = pos yearly;
    } in
      length (prune_snaps_with_quotas cal quotas snaps)
      ≤ last + (daily + (weekly + (monthly + yearly)))
unfolding prune_snaps_with_quotas
prune-le-quotas cal last daily weekly monthly yearly snaps =
    let quotas : AutobackupQuotas = record {
      last = pos last;
      daily = pos daily;
      weekly = pos weekly;
      monthly = pos monthly;
      yearly = pos yearly;
    } in
    omega (
      arith,
      prune_loop-budget cal 0 (start_buckets quotas) (sort_newest (λ s. s.created_at) snaps)
          (refl, (refl, (refl, (refl, (refl, tt))))),
    )

-- The bucket by index, unlimited, before snapshot `i`.
abbrev IsUnlimited : ℕ → RotationBucket → Type 0
IsUnlimited i b =
    (b.counter ≡ negsuc 0) × (b.rotation ≡ by_index) × ((j : ℕ) → i ≤ j → last_eq b.last j ≡ false)

visit_bucket_unlimited :
    (cal : Calendar) (i : ℕ) (is_last : Bool) (s : Snapshot) (b : RotationBucket)
    → b.counter ≡ negsuc 0
    → b.rotation ≡ by_index
    → last_eq b.last i ≡ false
    → visit_bucket cal i is_last s b
      ≡ (record { counter = negsuc 0; last = pos i; rotation = by_index }, true)
unfolding visit_bucket rotation_value
visit_bucket_unlimited cal i is_last s b c r fresh = ground arith

visit_bucket-IsUnlimited :
    (cal : Calendar) (i : ℕ) (is_last : Bool) (s : Snapshot) (b : RotationBucket)
    → IsUnlimited i b
    → let (b', kept) = visit_bucket cal i is_last s b in (kept ≡ true) × IsUnlimited (i + 1) b'
visit_bucket-IsUnlimited cal i is_last s b (c, r, fresh) =
    rw (visit_bucket_unlimited cal i is_last s b c r (fresh i (omega arith)))
      (refl, (refl, refl, λ j h. ground arith))

prune_loop-unlimited :
    (cal : Calendar) (i : ℕ) (b : RotationBucket) (bs : List RotationBucket) (snaps : List Snapshot)
    → IsUnlimited i b
    → prune_loop cal i (b ∷ bs) snaps ≡ snaps
unfolding prune_loop visit_buckets
prune_loop-unlimited cal i b bs [] u = refl
prune_loop-unlimited cal i b bs (s ∷ snaps) u =
    let (b', k) = visit_bucket cal i (is_nil snaps) s b in
    let (bs', more) = visit_buckets cal i (is_nil snaps) s bs in
    let one = visit_bucket-IsUnlimited cal i (is_nil snaps) s b u in
    rw one.0 (ap (◌∷◌ s) (prune_loop-unlimited cal (i + 1) b' bs' snaps one.1))

-- With an unlimited `last` quota nothing is pruned, whatever the other quotas are.
pub prune_unlimited :
    (cal : Calendar) (q : AutobackupQuotas) (snaps : List Snapshot)
    → q.last ≡ negsuc 0
    → prune_snaps_with_quotas cal q snaps ≡ sort_newest (λ s. s.created_at) snaps
unfolding prune_snaps_with_quotas
prune_unlimited cal q snaps e = prune_loop-unlimited cal 0 _ _ _ (e, refl, λ j h. refl)

-- A bucket that has not closed a period keeps whatever comes first.
abbrev some_open : List RotationBucket → Bool
some_open [] = false
some_open (b ∷ bs) = (is_open b.counter && not (is_limited b.last)) || some_open bs

visit_buckets_open :
    (cal : Calendar) (i : ℕ) (is_last : Bool) (s : Snapshot) (bs : List RotationBucket)
    → some_open bs ≡ true
    → (visit_buckets cal i is_last s bs).1 ≡ true
unfolding visit_buckets visit_bucket
visit_buckets_open cal i is_last s [] h = h
visit_buckets_open cal i is_last s (b ∷ bs) h =
    ground (arith, visit_buckets_open cal i is_last s bs)

abbrev pub any_quota : AutobackupQuotas → Bool
any_quota q =
    is_open q.last || is_open q.daily || is_open q.weekly || is_open q.monthly || is_open q.yearly

first_kept :
    (cal : Calendar) (bs : List RotationBucket) (snaps : List Snapshot)
    → some_open bs ≡ true
    → head? (prune_loop cal 0 bs snaps) ≡ head? snaps
unfolding prune_loop
first_kept cal bs [] h = refl
first_kept cal bs (s ∷ snaps) h = rw (visit_buckets_open cal 0 (is_nil snaps) s bs h)

-- If some quota is positive or -1, the newest snapshot is kept.
pub prune_keeps_newest :
    (cal : Calendar) (q : AutobackupQuotas) (snaps : List Snapshot)
    → any_quota q ≡ true
    → head? (prune_snaps_with_quotas cal q snaps) ≡ head? (sort_newest (λ s. s.created_at) snaps)
unfolding prune_snaps_with_quotas
prune_keeps_newest cal q snaps h =
    first_kept cal (start_buckets q) (sort_newest (λ s. s.created_at) snaps) (ground arith)
