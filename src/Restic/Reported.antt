-- ===== src/Restic/Reported.antt =====
-- A backup that returns a snapshot.
use mathlib.Core.Path.{subst}
use selfprivacy_api.Restic.Operations.{output_yielder}
use selfprivacy_api.Jobs.Model.{Job}
use selfprivacy_api.Restic.StartBackup.{
  on_vault, answer, OnServer, after_reading, run_backup_command, upload,
}
use selfprivacy_api.Backup.Run.{World}
use selfprivacy_api.Backup.Model.{Snapshot, BackupReason}
use selfprivacy_api.Restic.Json.{failure, json_text, json_get, json_dict, Failure, Json, contains}
use selfprivacy_api.Restic.Upload.{
  shortened, unless_reported, is_message, short_id_len, short_id_of,
  snapshot_id_from_backup_messages, parse_message, Progress, read_messages, take_chars,
}
use selfprivacy_api.Restic.Vault.{Call, on_machine, Vault, Machine}
use text.Mathlib.TextLemmas.{length-nil, length-cons}
use selfprivacy_api.Base.{
  some, Option, ◌≢◌, bind-inv, ◌>>=◌, pure, Action, ◌∙◌, Bool-cases, zero, suc, sym, Result, any,
  keep, not, ◌&&◌, ◌≤◌, Bool, List, ℕ, String, refl, ◌≡◌, [], inl, inr, ok, err, true, false, ◌∷◌,
  ap, arith,
}
use Prim.Native.String.{count}

take_chars-count : (n : ℕ) (t : String) → count (take_chars n t) ≤ n
unfolding take_chars
take_chars-count zero t = omega (arith, length-nil)
take_chars-count (suc n) String.[] = omega (arith, length-nil)
take_chars-count (suc n) (String.◌∷◌ c t) =
    omega (arith, take_chars-count n t, length-cons c (take_chars n t))

abbrev ok_or : {A : Type 0} → A → Result Failure A → A
ok_or a (ok x) = x
ok_or a (err _) = a

pub ok-injective : {A : Type 0} {a b : A} → ◌≡◌ {A = Result Failure A} (ok a) (ok b) → a ≡ b
ok-injective {A} {a} e = ap (ok_or a) e

pub err-ne-ok : {A : Type 0} (e : Failure) (a : A) → ◌≢◌ {A = Result Failure A} (err e) (ok a)
err-ne-ok e a h = cc

shortened-count : (o : Option Json) (id : String) → shortened o ≡ ok id → count id ≤ short_id_len
shortened-count (some (json_text t)) id h =
    subst (λ x. count x ≤ short_id_len) (ok-injective h) (take_chars-count short_id_len t)
shortened-count _ id h = absurd (err-ne-ok (failure "snapshot_id") id h)

short_id_of-count :
    (message : Json) (id : String) → short_id_of message ≡ ok id → count id ≤ short_id_len
unfolding short_id_of
short_id_of-count (json_dict d) id h = shortened-count (json_get "snapshot_id" d) id h
short_id_of-count _ id h = absurd (err-ne-ok (failure "snapshot_id") id h)

snapshot_id-count :
    (messages : List Json) (id : String)
    → snapshot_id_from_backup_messages messages ≡ ok id
    → count id ≤ short_id_len
unfolding snapshot_id_from_backup_messages
snapshot_id-count [] id h = cc
snapshot_id-count (message ∷ messages) id h = elim (Bool-cases (is_message "summary" message)) [
  | inl found ↦ short_id_of-count message id (rw found at h)
  | inr other_kind ↦ snapshot_id-count messages id (rw other_kind at h)
]

module _ {R : Type 0} (m : Machine R) where
  abbrev reports : String → Bool
  reports line = contains line "ERROR:"

  read_messages-silent :
      (lines : List String) (s : Progress) → read_messages m true lines s ≡ (ok (true, []), s)
  unfolding read_messages
  read_messages-silent [] s = refl
  read_messages-silent (x ∷ xs) s = read_messages-silent xs s

  flag_of :
      {s s' : Progress} {flag flag' : Bool} {messages messages' : List Json}
      → ◌≡◌ {A = Result Failure (Bool × List Json) × Progress}
          (ok (flag, messages), s)
          (ok (flag', messages'), s')
      → flag' ≡ flag
  flag_of {flag} e = ap flag_in (sym e)
    where
      flag_in : Result Failure (Bool × List Json) × Progress → Bool
      flag_in (ok (f, _), _) = f
      flag_in (err _, _) = flag

  -- The loop says whether some line reported an error.
  read_messages-reported :
      (lines : List String) (s s' : Progress) (flag : Bool) (messages : List Json)
      → read_messages m false lines s ≡ (ok (flag, messages), s')
      → flag ≡ any reports lines
  unfolding read_messages
  read_messages-reported [] s s' flag messages run = flag_of run
  read_messages-reported (x ∷ xs) s s' flag messages run = elim (Bool-cases (reports x)) [
    | inl reported ↦
        let silent = sym (read_messages-silent xs s) ∙ rw reported at run in
        rw reported (flag_of {s = s} silent)
    | inr silent ↦
        let add : Json → Bool × List Json → Action Progress Failure (Bool × List Json) =
          λ message (failed, more). pure (failed, message ∷ more) in
        let later : Json → Action Progress Failure (Bool × List Json) =
          λ message. read_messages m false xs >>= add message in
        let (message, s1, _, run1) =
          bind-inv (parse_message m x) later {s = s} (rw silent at run) in
        let (q, s2, run2, run3) = bind-inv (read_messages m false xs) (add message) run1 in
        rw silent
          (flag_of {s = s2} {flag = q.0} run3 ∙ read_messages-reported xs s1 s2 q.0 q.1 run2)
  ]

  -- A line that restic printed, not a notice, reports an error.
  abbrev pub reports_error : String → Bool
  reports_error line = not (contains line "NOTICE:") && contains line "ERROR:"

  -- The last that was read from a machine in the state of `v` are the lines that the command
  -- printed, none of them reports an error, and the snapshot has a short id and the service and the
  -- reason of the backup.
  abbrev pub Uploaded :
      (command : List String) (name : String)
      → BackupReason
      → Snapshot
      → (v after : Vault R) → Type 0
  Uploaded command name reason snap v after =
      (printed : List String) × (m.read_lines command v.remote ≡ (ok printed, after.remote))
      × (any reports_error printed ≡ false)
      × (count snap.id ≤ 8)
      × (snap.service_name ≡ name)
      × (snap.reason ≡ reason)

  any-kept :
      (lines : List String)
      → any reports (keep (λ line. not (contains line "NOTICE:")) lines) ≡ any reports_error lines
  any-kept [] = refl
  any-kept (line ∷ lines) = ground (arith, any-kept lines)

  output_yielder-ok :
      (command : List String) (v v' : Vault R) (lines : List String)
      → output_yielder m command v ≡ (ok lines, v')
      → any reports lines ≡ false
      → (printed : List String) × (m.read_lines command v.remote ≡ (ok printed, v'.remote))
        × (any reports_error printed ≡ false)
  unfolding output_yielder
  output_yielder-ok command v v' lines run clean =
      let close : List String → Call R (List String) =
        λ lines. pure (keep (λ line. not (contains line "NOTICE:")) lines) in
      let (printed, v1, run1, run2) = bind-inv (on_machine (m.read_lines command)) close run in
      let state : Result Failure (List String) × Vault R → R = λ q. q.1.remote in
      let answered = ap (λ (r : Result Failure (List String) × Vault R). (r.0, r.1.remote)) run1 in
      (
        printed,
        answered ∙ ap (λ (x : R). (ok printed, x)) (ap state run2),
        sym (any-kept printed)
            ∙ ap (any reports)
                (ok-injective (ap (λ (r : Result Failure (List String) × Vault R). r.0) run2))
            ∙ clean,
      )

  -- The end of the reading is the end of the loop.
  after_reading-ok :
      (command : List String) (q : Result Failure (Bool × List Json) × Progress)
      (w w' : World (Vault R)) (x : Bool × List Json)
      → after_reading m command q w ≡ (ok x, w')
      → (q.0 ≡ ok x) × (w.remote ≡ w'.remote)
  after_reading-ok command (ok y, (job, jobs)) w w' x h = (
    ap (λ (r : Result Failure (Bool × List Json) × World (Vault R)). r.0) h,
    ap (λ (r : Result Failure (Bool × List Json) × World (Vault R)). r.1.remote) h,
  )
  after_reading-ok command (err e, (job, jobs)) w w' x h =
      absurd
        (err-ne-ok e x (ap (λ (r : Result Failure (Bool × List Json) × World (Vault R)). r.0) h))

  unless_reported-ok :
      (lines : List String) (x : Bool × List Json) (messages : List Json)
      → unless_reported lines x ≡ ok messages
      → x.0 ≡ false
  unless_reported-ok lines (true, ms) messages h = absurd (err-ne-ok _ messages h)
  unless_reported-ok lines (false, ms) messages h = refl

  run_backup_command-clean :
      (command : List String) (job : Option Job) (w w' : World (Vault R)) (messages : List Json)
      → run_backup_command m command job w ≡ (ok messages, w')
      → (lines : List String) × (output_yielder m command w.remote ≡ (ok lines, w'.remote))
        × (any reports lines ≡ false)
  unfolding run_backup_command
  run_backup_command-clean command job w w' messages run =
      let read : List String → OnServer R (Bool × List Json) =
        λ lines w. after_reading m command (read_messages m false lines (job, w.server.jobs)) w in
      let close : List String → Bool × List Json → OnServer R (List Json) =
        λ lines x. answer (unless_reported lines x) in
      let (lines, w1, run1, run2) =
        bind-inv (on_vault (output_yielder m command)) (λ lines. read lines >>= close lines) run in
      let (x, w2, run3, run4) = bind-inv (read lines) (close lines) run2 in
      let s : Progress = (job, w1.server.jobs) in
      let loop = read_messages m false lines s in
      let (returned, same) = after_reading-ok command loop w1 w2 x run3 in
      let said =
        read_messages-reported lines s loop.1 x.0 x.1
          (ap (λ (r : Result Failure (Bool × List Json)). (r, loop.1)) returned) in
      let closed =
        unless_reported-ok lines x messages
          (ap (λ (r : Result Failure (List Json) × World (Vault R)). r.0) run4) in
      let end = same ∙ ap (λ (r : Result Failure (List Json) × World (Vault R)). r.1.remote) run4 in
      (
        lines,
        ap (λ (r : Result Failure (List String) × World (Vault R)). (r.0, r.1.remote)) run1
            ∙ ap (λ (v : Vault R). (ok lines, v)) end,
        sym said ∙ closed,
      )

  pub upload-Uploaded :
      (name : String) (reason : BackupReason) (command : List String) (job : Option Job)
      (w w' : World (Vault R)) (snap : Snapshot)
      → upload m name reason command job w ≡ (ok snap, w')
      → Uploaded command name reason snap w.remote w'.remote
  unfolding upload
  upload-Uploaded name reason command job w w' snap run =
      let named : String → OnServer R Snapshot =
        λ id. pure (record { id = id; service_name = name; created_at = m.now; reason = reason }) in
      let find : List Json → OnServer R Snapshot =
        λ messages. answer (snapshot_id_from_backup_messages messages) >>= named in
      let (messages, w1, run1, run2) = bind-inv (run_backup_command m command job) find run in
      let (id, w2, run3, run4) =
        bind-inv (answer (snapshot_id_from_backup_messages messages)) named run2 in
      let found = ap (λ (r : Result Failure String × World (Vault R)). r.0) run3 in
      let made = ok-injective (ap (λ (r : Result Failure Snapshot × World (Vault R)). r.0) run4) in
      let (lines, read, clean) = run_backup_command-clean command job w w1 messages run1 in
      let (printed, printed_so, silent) =
        output_yielder-ok command w.remote w1.remote lines read clean in
      let end =
        ap (λ (r : Result Failure String × World (Vault R)). r.1.remote.remote) run3
        ∙ ap (λ (r : Result Failure Snapshot × World (Vault R)). r.1.remote.remote) run4 in
      (
        printed,
        printed_so ∙ ap (λ (x : R). (ok printed, x)) end,
        silent,
        subst (λ (s : Snapshot). count s.id ≤ short_id_len) made
            (snapshot_id-count messages id found),
        sym (ap (λ (s : Snapshot). s.service_name) made),
        sym (ap (λ (s : Snapshot). s.reason) made),
      )
