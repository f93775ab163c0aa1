-- ===== src/Restic/Entries.antt =====
-- Reading the listing of restic: dicts with a short id, a time and the tags of `start_backup`, next
-- to whatever other fields restic writes.
use selfprivacy_api.Restic.Json.{
  json_get, json_text, item, json_array, json_dict, no_items, Fields, Items, Json, Failure, failure,
}
use selfprivacy_api.Restic.Listing.{
  read_entries, read_listing, snapshot_of_entry, tags_of, service_and_reason, from_tags,
  snapshot_from, with_parsed, and_also, required, reason_value, reason_of,
}
use selfprivacy_api.Base.{
  List, ℕ, Option, String, refl, ◌≡◌, [], ok, err, none, some, ap, ◌∙◌, Result, ◌∷◌,
}
use selfprivacy_api.Backup.Model.{Snapshot, BackupReason, explicit, auto, pre_restore}

reason_of-reason_value : (r : BackupReason) → reason_of (reason_value r) ≡ some r
unfolding reason_of
reason_of-reason_value explicit = refl
reason_of-reason_value auto = refl
reason_of-reason_value pre_restore = refl

module _ (parse_time : String → Option ℕ) where
  -- The fields of an entry tell of a snapshot: its short id, its time, and as its two tags the
  -- service and the reason. Any other fields may stand beside them.
  pub record Tells (d : Fields) (snap : Snapshot) : Type 0 where
    pub time : String
    pub has_id : json_get "short_id" d ≡ some (json_text snap.id)
    pub has_time : json_get "time" d ≡ some (json_text time)
    pub time_is : parse_time time ≡ some snap.created_at
    pub has_tags :
        json_get "tags" d
        ≡ some (
            json_array (
              item
                (json_text snap.service_name)
                (item (json_text (reason_value snap.reason)) no_items)))

  -- The entries of a listing, one after the other
  pub data Lists : Items → List Snapshot → Type 0 where
    lists_none : Lists no_items []
    lists_one :
        (d : Fields) (snap : Snapshot) (entries : Items) (snaps : List Snapshot)
        → Tells d snap
        → Lists entries snaps
        → Lists (item (json_dict d) entries) (snap ∷ snaps)

  tags-read : (d : Fields) (j : Json) → json_get "tags" d ≡ some j → tags_of (json_dict d) ≡ ok j
  unfolding tags_of
  tags-read d j h = rw (h, tags_of) refl

  required-read :
      (key : String) (d : Fields) (j : Json)
      → json_get key d ≡ some j
      → required key (json_dict d) ≡ ok j
  required-read key d j h =
      ap (λ (o : Option Json). elim o [ none ↦ err (failure key) | some j ↦ ok j ]) h

  entry-read :
      (d : Fields) (snap : Snapshot)
      → Tells d snap
      → snapshot_of_entry parse_time (json_dict d) ≡ ok snap
  unfolding snapshot_of_entry service_and_reason from_tags snapshot_from
  entry-read d snap t =
      let tags = json_array (
        item (json_text snap.service_name)
          (item (json_text (reason_value snap.reason)) no_items)) in
      let whole : Result Failure Json
          → Result Failure Json
          → Result Failure Json
          → Result Failure Snapshot =
        λ a b c. and_also a λ tags. and_also (service_and_reason tags) λ (name, reason).
          and_also b λ id. and_also c λ time. snapshot_from parse_time id time name reason in
      let entry = json_dict d in
      ap (λ a. whole a (required "short_id" entry) (required "time" entry))
        (tags-read d tags t.has_tags)
      ∙ ap (λ b. whole (ok tags) b (required "time" entry)) (required-read "short_id" d _ t.has_id)
      ∙ ap (whole (ok tags) (ok (json_text snap.id))) (required-read "time" d _ t.has_time)
      ∙ ap (λ o. with_parsed snap.id snap.service_name o (reason_of (reason_value snap.reason)))
          t.time_is
      ∙ ap (with_parsed snap.id snap.service_name (some snap.created_at))
          (reason_of-reason_value snap.reason)

  -- A listing of restic whose entries have short ids, times that can be parsed, and as tags the name
  -- of the service and the value of the reason, whatever else stands in them, is read as the
  -- snapshots with these ids, times, services and reasons, in the same order.
  pub read_listing-Lists :
      (entries : Items) (snaps : List Snapshot)
      → Lists entries snaps
      → read_listing parse_time (json_array entries) ≡ ok snaps
  unfolding read_listing read_entries
  read_listing-Lists no_items [] lists_none = refl
  read_listing-Lists no_items (snap ∷ snaps) l = elim l [ ]
  read_listing-Lists (item _ entries) [] l = elim l [ ]
  read_listing-Lists (item _ entries) (snap ∷ snaps) (lists_one d _ _ _ t rest) =
      rw (entry-read d snap t, read_listing-Lists entries snaps rest) refl
