-- ===== src/Backup/Unattended.antt =====
-- What the unattended backups leave behind (`do_autobackup` and `back_up_multiple` of
-- selfprivacy_api/backup/tasks.py).
use selfprivacy_api.Base.{
  ℕ, suc, ◌+◌, ◌*◌, ◌/◌, String, ◌≡◌, refl, sym, ap, ◌∙◌, inl, inr, true, not, Option, none, some,
  List, [], ◌∷◌, length, if◌then◌else◌, is_some, Result, ok, err, pure, gets, modify, ◌>>=◌, ◌>>◌,
  bind-split,
}
use selfprivacy_api.Base.Int.{pos}
use selfprivacy_api.Backup.Model.{BackupReason, explicit, Snapshot}
use selfprivacy_api.Backup.Storage.{autobackup_period_minutes}
use selfprivacy_api.Backup.ServiceJobs.{Service}
use selfprivacy_api.Backup.Schedule.{services_to_back_up, set_autobackup_period_minutes}
use selfprivacy_api.Backup.Run.{World, Run, update_job, back_up}
use selfprivacy_api.Backup.InPlace.{keep_job}
use selfprivacy_api.Backup.Tasks.{
  Tasks, reported, progressed, reporting, back_up_each, back_up_multiple, do_total_backup,
  set_period, autobackup_of, do_autobackup,
}
use selfprivacy_api.Jobs.Model.{finished, update_of}

module _ {R : Type 0} (b : Tasks R) where
  -- Where automatic backups are disabled and no service is due with the period of a day, the task
  -- returns and leaves them enabled with that period.
  pub do_autobackup_stays_enabled :
      (services : List Service) (time : ℕ) (w : World R)
      → autobackup_period_minutes w.server.storage ≡ none
      → services_to_back_up services time (set_period (pos (24 * 60)) w).server ≡ []
      → (do_autobackup b services time w ≡ (ok tt, set_period (pos (24 * 60)) w))
        × (autobackup_period_minutes (set_period (pos (24 * 60)) w).server.storage ≡ some 1440)
  unfolding do_autobackup autobackup_period_minutes set_autobackup_period_minutes
  do_autobackup_stays_enabled services time w disabled nothing = (
    ap
          (λ (o : Option ℕ).
            ((if not (is_some o) then modify (set_period (pos (24 * 60))) else pure tt)
                >> (gets (λ (v : World R). services_to_back_up services time v.server)
                    >>= autobackup_of b (not (is_some o))))
              w)
          disabled
        ∙ ap (λ due. autobackup_of b true due (set_period (pos (24 * 60)) w)) nothing,
    refl,
  )

  -- The world is as an error report on the task's job left it.
  abbrev pub IsReported : String → World R → Type 0
  IsReported e w =
      (n : ℕ) × (v : World R) × (w ≡ update_job (b.clock n) (reported (b.describe ": " e)) v)

  abbrev error_of : {A : Type 0} → Result String A × World R → String
  error_of (ok _, w) = ""
  error_of (err e, w) = e

  reporting-IsReported :
      {A : Type 0} (n : ℕ) (q : Result String A × World R) (e : String) (w' : World R)
      → reporting b n q ≡ (err e, w')
      → IsReported e w'
  reporting-IsReported {A = A} n (ok a, v) e w' h =
      let clash : ok a ≡ err e = ap (λ (q : Result String A × World R). q.0) h in cc
  reporting-IsReported {A = A} n (err x, v) e w' h = (
    n,
    v,
    sym (ap (λ (q : Result String A × World R). q.1) h)
        ∙ ap (λ t. update_job (b.clock n) (reported (b.describe ": " t)) v) (ap error_of h),
  )

  back_up_each-IsReported :
      (reason : BackupReason) (n progress step : ℕ) (services : List Service) (w w' : World R)
      (e : String)
      → back_up_each b reason n progress step services w ≡ (err e, w')
      → IsReported e w'
  unfolding back_up_each
  back_up_each-IsReported reason n progress step [] w w' e run =
      let clash : ok tt ≡ err e = ap (λ (q : Result String (Unit {0}) × World R). q.0) run in cc
  back_up_each-IsReported reason n progress step (s ∷ ss) w w' e run =
      let one : Run R Snapshot =
        λ v. reporting b (suc n) (keep_job (back_up (b.worker n) s reason) v) in
      let rest : Snapshot → Run R (Unit {0}) = λ _.
        modify (update_job (b.clock (suc n)) (progressed (progress + step)))
        >> back_up_each b reason (suc n) (progress + step) step ss in
      elim (bind-split one rest run) [
        | inl raised ↦
            reporting-IsReported (suc n) (keep_job (back_up (b.worker n) s reason) w) e w' raised
        | inr (snap, v, returned, later) ↦
            back_up_each-IsReported reason (suc n) (progress + step) step ss _ w' e later
      ]

  -- A total backup that raises does so right after it set its job to an error with the error's
  -- text.
  pub do_total_backup-IsReported :
      (enabled : List Service) (w w' : World R) (e : String)
      → do_total_backup b enabled w ≡ (err e, w')
      → IsReported e w'
  unfolding do_total_backup back_up_multiple
  do_total_backup-IsReported [] w w' e run =
      let clash : ok tt ≡ err e = ap (λ (q : Result String (Unit {0}) × World R). q.0) run in cc
  do_total_backup-IsReported (s ∷ ss) w w' e run =
      let finish : Unit {0} → Run R (Unit {0}) =
        λ _. modify (update_job (b.clock (suc (length (s ∷ ss)))) (update_of finished)) in
      elim (bind-split (back_up_multiple b (s ∷ ss) explicit) finish run) [
        | inl raised ↦
            back_up_each-IsReported explicit 0 0 (100 / length (s ∷ ss)) (s ∷ ss) _ w' e raised
        | inr (u, v, returned, later) ↦
            let clash : ok tt ≡ err e =
              ap (λ (q : Result String (Unit {0}) × World R). q.0) later in
            cc
      ]
