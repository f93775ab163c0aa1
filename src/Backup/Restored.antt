-- ===== src/Backup/Restored.antt =====
-- What a restore leaves behind when it fails: the job, the service and the data.
use selfprivacy_api.Base.{
  ℕ, String, ◌≡◌, refl, ap, ◌∙◌, true, false, not, ◌&&◌, some, if◌then◌else◌, Result, ok, err, pure,
  modify, raise, ◌>>=◌, ◌>>◌, bind-ok,
}
use Prim.Native.String.{◌++◌ as str_append}
use selfprivacy_api.Backup.Model.{pre_restore, Snapshot}
use selfprivacy_api.Backup.ServiceJobs.{Service}
use selfprivacy_api.Backup.Run.{World, Run, on_remote, update_job, back_up}
use selfprivacy_api.Jobs.Updated.{exists_job-update}
use selfprivacy_api.Backup.Failure.{update_job-get_job}
use selfprivacy_api.Backup.Restore.{
  ServiceStatus, RestoreStrategy, Waited, in_time, Restorer, no_such_service, is_stopped, was_up,
  waited_result, status_text, waiting, from_option, ensure_queued_restore_job,
  restore_service_from_snapshot,
}
use selfprivacy_api.Backup.InPlace.{
  stop_timeout, start_timeout, restoring, reverting, reverted, stop_service, restart_service,
  exit_after, with_stopped_service, keep_job, revert, inplace_restore, restore_attempt,
  finish_restore, restore_snapshot,
}
use selfprivacy_api.Jobs.Model.{created, error, Job, Update, update_of}
use selfprivacy_api.Jobs.Store.{update, text_or_none, loaded, apply_update, get_job, exists_job}

module _ {R : Type 0} (b : Restorer R) where
  -- If anything raises after the restore job was queued, `restore_snapshot` raises the same error,
  -- and the job, if it is still stored, is then found in error with its text as the status text.
  pub restore_marks_error :
      (service : Service) (snap : Snapshot) (strategy : RestoreStrategy) (w w1 w2 : World R)
      (e : String)
      → b.find_service snap.service_name ≡ some service
      → ensure_queued_restore_job b service snap w ≡ (ok tt, w1)
      → restore_attempt b service snap strategy w1 ≡ (err e, w2)
      → exists_job w2.job.uid w2.server.jobs ≡ true
      → let (result, after) = restore_snapshot b snap strategy w in
        (result ≡ err e)
        × ((x : Job) × (get_job w2.job.uid after.server.jobs ≡ some x)
            × (x.status ≡ error)
            × (x.status_text ≡ text_or_none (some e)))
  unfolding restore_snapshot loaded apply_update
  restore_marks_error service snap strategy w w1 w2 e known queued failed here =
      let rest : Service → Run R (Unit {0}) = λ s. ensure_queued_restore_job b s snap >> λ w.
      finish_restore b (restore_attempt b s snap strategy w) in
      let whole =
        bind-ok (from_option no_such_service (b.find_service snap.service_name)) rest {s = w}
          (ap (λ o. from_option no_such_service o w) known)
        ∙ bind-ok (ensure_queued_restore_job b service snap)
            (λ _ v. finish_restore b (restore_attempt b service snap strategy v)) queued
        ∙ ap (finish_restore b) failed in
      rw whole (refl, (_, update_job-get_job (b.clock 8) (status_text error e) w2 here, refl, refl))

  stop_service-ok :
      (service : Service) (w : World R) (status : ServiceStatus) (r1 r2 : R)
      → b.is_always_active service ≡ false
      → b.get_status service w.remote ≡ (ok status, r1)
      → is_stopped status ≡ false
      → b.stop service r1 ≡ (in_time, r2)
      → stop_service b service w ≡ (ok status, record w { remote = r2 })
  unfolding stop_service
  stop_service-ok service w status r1 r2 usual read up stopped =
      let w1 : World R = record w { remote = r1 } in
      let stop : ServiceStatus → Run R (Unit {0}) = λ s.
        if not (is_stopped s) && not (b.is_always_active service)
        then waiting stop_timeout (b.stop service)
        else pure tt in
      bind-ok (on_remote (b.get_status service)) (λ s. stop s >> pure s) {s = w} {s' = w1}
        (ap (λ (q : Result String ServiceStatus × R). (q.0, record w { remote = q.1 })) read)
      ∙ bind-ok (stop status) (λ _. pure status) {s = w1}
          (ap (λ c. (if c then waiting stop_timeout (b.stop service) else pure tt) w1)
              (ap (λ x. not x && not (b.is_always_active service)) up ∙ ap not usual)
            ∙ ap (λ (q : Waited × R). (waited_result stop_timeout q.0, record w1 { remote = q.1 }))
                stopped)

  -- A service that was up, is not always active and was stopped in time is started again after the
  -- block, whether or not the block raises; the result is that of the block if the start is in time,
  -- and else the error of the start.
  pub with_stopped_service_restarts :
      (service : Service) (block : Run R (Unit {0})) (w w' : World R) (status : ServiceStatus)
      (r1 r2 : R) (result : Result String (Unit {0}))
      → b.is_always_active service ≡ false
      → b.get_status service w.remote ≡ (ok status, r1)
      → was_up status ≡ true
      → is_stopped status ≡ false
      → b.stop service r1 ≡ (in_time, r2)
      → block (record w { remote = r2 }) ≡ (result, w')
      → with_stopped_service b service block w ≡ (
        (elim (waited_result start_timeout (b.start service w'.remote).0) [
          | err e ↦ err e
          | ok _ ↦ result
        ]),
        record w' { remote = (b.start service w'.remote).1 },
      )
  unfolding with_stopped_service restart_service
  with_stopped_service_restarts service block w w' status r1 r2 result usual read was up stopped
        ran =
      bind-ok (stop_service b service) (λ s v. exit_after (restart_service b service s) (block v))
        (stop_service-ok service w status r1 r2 usual read up stopped)
      ∙ ap (exit_after (restart_service b service status)) ran
      ∙ ap
          (λ c.
            exit_after (if c then waiting start_timeout (b.start service) else pure tt)
              (result, w'))
          (ap (λ x. x && not (b.is_always_active service)) was ∙ ap not usual)

  -- An update to an error that says what failed and what is done about it
  abbrev pub failed_and : String → String → Snapshot → Update
  failed_and what e failsafe = record (update_of error) {
    status_text =
        some (str_append "Restore failed with " (str_append e (str_append what failsafe.id)));
  }

  -- The world after a restore that was reverted, from the one after the failsafe backup.
  abbrev pub after_revert :
      Snapshot → Snapshot → String → Job → (broken mended : R) → World R → World R
  after_revert snap failsafe e j broken mended w1 =
      let w2 = update_job (b.clock 4) (restoring snap) (record w1 { job = j }) in
      let w3 =
        update_job (b.clock 5) (failed_and ", reverting to " e failsafe)
          (record w2 { remote = broken }) in
      update_job (b.clock 6) (failed_and ", reverted to " e failsafe)
        (record w3 { remote = mended })

  revert-err :
      (service : Service) (failsafe : Snapshot) (w : World R) (e : String) (r2 : R)
      → b.restore_from_backup failsafe.id (b.folders service) false w.remote ≡ (ok tt, r2)
      → revert b service failsafe (err e, w) ≡ (
        err e,
        update_job
            (b.clock 6)
            (reverted e failsafe)
            (record (update_job (b.clock 5) (reverting e failsafe) w) { remote = r2 }),
      )
  unfolding restore_service_from_snapshot update_job
  revert-err service failsafe w e r2 mended =
      let w1 = update_job (b.clock 5) (reverting e failsafe) w in
      let last : Unit {0} → Run R (Unit {0}) =
        λ _. modify (update_job (b.clock 6) (reverted e failsafe)) >> raise e in
      bind-ok (restore_service_from_snapshot b service failsafe.id false) last {s = w1}
        (ap (λ (q : Result String (Unit {0}) × R). (q.0, record w1 { remote = q.1 })) mended)

  reverts_lem :
      (service : Service) (snap failsafe : Snapshot) (w before w1 : World R) (e : String)
      (r1 r2 : R)
      → update_job (b.clock 3) (status_text created "Waiting for pre-restore backup") w ≡ before
      → back_up b.worker service pre_restore before ≡ (ok failsafe, w1)
      → b.restore_from_backup snap.id (b.folders service) false w1.remote ≡ (err e, r1)
      → b.restore_from_backup failsafe.id (b.folders service) false r1 ≡ (ok tt, r2)
      → inplace_restore b service snap w ≡ (err e, after_revert snap failsafe e before.job r1 r2 w1)
  unfolding inplace_restore restore_service_from_snapshot update_job
  reverts_lem service snap failsafe w before w1 e r1 r2 started made broken mended =
      let w2 = update_job (b.clock 4) (restoring snap) (record w1 { job = before.job }) in
      let rest : Snapshot → Run R (Unit {0}) = λ f.
        modify (update_job (b.clock 4) (restoring snap)) >> λ v.
        revert b service f (restore_service_from_snapshot b service snap.id false v) in
      ap (keep_job (back_up b.worker service pre_restore) >>= rest) started
      ∙ bind-ok (keep_job (back_up b.worker service pre_restore)) rest {s = before} (
          ap (λ (q : Result String Snapshot × World R). (q.0, record q.1 { job = before.job }))
            made)
      ∙ ap
          (λ (q : Result String (Unit {0}) × R).
            revert b service failsafe (q.0, record w2 { remote = q.1 }))
          broken
      ∙ revert-err service failsafe (record w2 { remote = r1 }) e r2 mended

  update_job-stored :
      (now : ℕ) (u : Update) (w : World R)
      → exists_job w.job.uid w.server.jobs ≡ true
      → exists_job w.job.uid (update_job now u w).server.jobs ≡ true
  unfolding update_job
  update_job-stored now u w here = exists_job-update now u w.job w.server.jobs here

  after_revert-get_job :
      (snap failsafe : Snapshot) (e : String) (j : Job) (r1 r2 : R) (w1 : World R)
      → exists_job j.uid w1.server.jobs ≡ true
      → (x : Job) × (get_job j.uid (after_revert snap failsafe e j r1 r2 w1).server.jobs ≡ some x)
        × (x.status ≡ error)
        × (x.status_text ≡ text_or_none (failed_and ", reverted to " e failsafe).status_text)
  unfolding update_job update apply_update loaded
  after_revert-get_job snap failsafe e j r1 r2 w1 here =
      let v1 : World R = record w1 { job = j } in
      let v2 : World R = record (update_job (b.clock 4) (restoring snap) v1) { remote = r1 } in
      let u3 = failed_and ", reverting to " e failsafe in
      let v3 : World R = record (update_job (b.clock 5) u3 v2) { remote = r2 } in
      let here2 = update_job-stored (b.clock 4) (restoring snap) v1 here in
      let here3 = update_job-stored (b.clock 5) u3 v2 here2 in
      (
        _,
        update_job-get_job (b.clock 6) (failed_and ", reverted to " e failsafe) v3 here3,
        refl,
        refl,
      )

  after_revert-status :
      (snap failsafe : Snapshot) (e : String) (j : Job) (r1 r2 : R) (w1 : World R)
      → ((after_revert snap failsafe e j r1 r2 w1).job.status ≡ error)
        × ((after_revert snap failsafe e j r1 r2 w1).job.uid ≡ j.uid)
        × ((after_revert snap failsafe e j r1 r2 w1).remote ≡ r2)
  unfolding update_job update apply_update
  after_revert-status snap failsafe e j r1 r2 w1 = (refl, refl, refl)

  -- If the failsafe backup was made, the snapshot cannot be restored in place and the failsafe
  -- snapshot can, the restore in place raises the error of the first, and the failsafe snapshot is
  -- restored last, between two updates that set the job to an error.
  pub inplace_restore_reverts :
      (service : Service) (snap failsafe : Snapshot) (w before w1 : World R) (e : String)
      (r1 r2 : R)
      → update_job (b.clock 3) (status_text created "Waiting for pre-restore backup") w ≡ before
      → back_up b.worker service pre_restore before ≡ (ok failsafe, w1)
      → b.restore_from_backup snap.id (b.folders service) false w1.remote ≡ (err e, r1)
      → b.restore_from_backup failsafe.id (b.folders service) false r1 ≡ (ok tt, r2)
      → exists_job before.job.uid w1.server.jobs ≡ true
      → let (result, after) = inplace_restore b service snap w in
        (result ≡ err e)
        × (after ≡ after_revert snap failsafe e before.job r1 r2 w1)
        × (after.remote ≡ r2)
        × (after.job.status ≡ error)
        × (after.job.uid ≡ before.job.uid)
        × ((x : Job) × (get_job before.job.uid after.server.jobs ≡ some x)
            × (x.status ≡ error)
            × (x.status_text ≡ text_or_none (failed_and ", reverted to " e failsafe).status_text))
  inplace_restore_reverts service snap failsafe w before w1 e r1 r2 started made broken mended
        here =
      let whole =
        reverts_lem service snap failsafe w before w1 e r1 r2 started made broken mended in
      let (status, uid, remote) = after_revert-status snap failsafe e before.job r1 r2 w1 in
      rw whole (
        refl,
        refl,
        remote,
        status,
        uid,
        after_revert-get_job snap failsafe e before.job r1 r2 w1 here,
      )
