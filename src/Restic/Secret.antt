-- ===== src/Restic/Secret.antt =====
-- The secret that the backups are encrypted with stays.
use mathlib.Core.Path.{sym, subst}
use selfprivacy_api.Restic.Json.{told, contains, Failure}
use Prim.Native.String.{◌++◌ as str_append}
use selfprivacy_api.Restic.Operations.{
  unlocked, ask, stale_lock, retry, run_restic, unlock, unlocked_repo,
}
use selfprivacy_api.Restic.Command.{args_of, command_line, Args, restic_command, ResticBackupper}
use selfprivacy_api.Restic.Vault.{
  give, restic_password_file, Completed, on_machine, secret_or_new, Call, Vault, get_secret,
  password_file, Machine,
}
use selfprivacy_api.Base.{
  if◌then◌else◌, ◌∷◌, ◌>>◌, Bool-cases, pure, List, bind-elim, Result, ◌>>=◌, Option, ◌≢◌, String,
  ◌≡◌, [], inl, inr, ok, err, none, some,
}

module _ {R : Type 0} (m : Machine R) (p : ResticBackupper) (k : String) where
  abbrev pub Has : Vault R → Type 0
  Has v = v.secret ≡ some k

  -- The call leaves the secret as it is.
  abbrev pub Holds : {A : Type 0} → Call R A → Type 0
  Holds f = (v : Vault R) → Has v → Has (f v).1

  pub bind-Holds :
      {A B : Type 0} (f : Call R A) (g : A → Call R B)
      → Holds f
      → ((a : A) → Holds (g a))
      → Holds (f >>= g)
  bind-Holds {B = B} f g first later v h =
      bind-elim (λ (q : Result Failure B × Vault R). Has q.1) f g v
        (λ a returned. later a (f v).1 (first v h)) (λ x raised. first v h)

  some-ne-none : (a : String) → ◌≢◌ {A = Option String} none (some a)
  some-ne-none a e = cc

  secret_or_new-Holds :
      (o : Option String) (v : Vault R) → o ≡ some k → Has v → Has (secret_or_new m o v).1
  secret_or_new-Holds none v e h = absurd (some-ne-none k e)
  secret_or_new-Holds (some s) v e h = h

  pub get_secret-Holds : Holds (get_secret m)
  unfolding get_secret
  get_secret-Holds v h = secret_or_new-Holds v.secret v h h

  password_file-Holds : Holds (password_file m)
  unfolding password_file
  password_file-Holds =
      let write : String → Call R (Unit {0}) =
        λ secret. on_machine (m.write_password_file (str_append secret "\n")) in
      let named : Call R String = pure restic_password_file in
      bind-Holds (get_secret m) (λ secret. write secret >> named) get_secret-Holds
        (λ secret. bind-Holds (write secret) (λ _. named) (λ v h. h) (λ _ v h. h))

  pub restic_command-Holds : (xs : Args) (tags : List String) → Holds (restic_command m p xs tags)
  unfolding restic_command
  restic_command-Holds xs tags =
      bind-Holds (password_file m) (command_line p xs tags) password_file-Holds (λ _ v h. h)

  pub ask-Holds :
      {A : Type 0} (xs : Args) (read : Completed → Result Failure A) → Holds (ask m p xs read)
  unfolding ask run_restic
  ask-Holds xs read =
      let run : List String → Call R Completed = λ command. on_machine (m.popen command) in
      bind-Holds (run_restic m p xs) (λ done. give (read done))
        (bind-Holds (restic_command m p xs []) run (restic_command-Holds xs []) (λ _ v h. h))
        (λ _ v h. h)

  pub unlock-Holds : Holds (unlock m p)
  unfolding unlock
  unlock-Holds = ask-Holds (args_of ("unlock" ∷ [])) unlocked

  retry-Holds :
      {A : Type 0} (f : Call R A) (q : Result Failure A × Vault R)
      → Holds f
      → Has q.1
      → Has (retry (unlock m p) f q).1
  retry-Holds f (ok a, v) hf h = h
  retry-Holds f (err e, v) hf h = elim (Bool-cases (contains (told e) stale_lock)) [
    | inl stale ↦
        subst (λ b. Has (if b then (unlock m p >> f) v else (err e, v)).1) (sym stale)
          (bind-Holds (unlock m p) (λ _. f) unlock-Holds (λ _. hf) v h)
    | inr live ↦ subst (λ b. Has (if b then (unlock m p >> f) v else (err e, v)).1) (sym live) h
  ]

  pub unlocked_repo-Holds : {A : Type 0} (f : Call R A) → Holds f → Holds (unlocked_repo m p f)
  unfolding unlocked_repo
  unlocked_repo-Holds f hf v h = retry-Holds f (f v) hf (hf v h)
