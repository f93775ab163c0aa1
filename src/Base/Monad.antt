-- ===== src/Base/Monad.antt =====
-- A Python method: it changes a state and returns or raises. The state comes back after a raise
-- too, since what was written stays written.
use mathlib.Core.Bool.{Bool}
use mathlib.Core.Path.{◌≡◌, refl, sym, ap, ◌∙◌}
use mathlib.Core.Logic.{◌≢◌, ◌⊎◌, inl, inr}
use selfprivacy_api.Base.Tests.{if◌then◌else◌}

pub data Result (E A : Type 0) : Type 0 where
  ok : A → Result E A
  err : E → Result E A

abbrev pub Action : Type 0 → Type 0 → Type 0 → Type 0
Action S E A = S → Result E A × S

module _ {S E A : Type 0} where
  abbrev pub pure : A → Action S E A
  pure a s = (ok a, s)

  abbrev pub raise : E → Action S E A
  raise e s = (err e, s)

  abbrev pub gets : (S → A) → Action S E A
  gets f s = (ok (f s), s)

module _ {S E : Type 0} where
  abbrev pub modify : (S → S) → Action S E (Unit {0})
  modify f s = (ok tt, f s)

  -- `if c: raise e`
  abbrev pub raise_if : Bool → E → Action S E (Unit {0})
  raise_if c e s = (if c then err e else ok tt, s)

module _ {S E A B : Type 0} where
  infixl 5 ◌>>=◌ ◌>>◌
  abbrev pub ◌>>=◌ : Action S E A → (A → Action S E B) → Action S E B
  ◌>>=◌ m f s = let (r, s') = m s in elim r [ ok a ↦ f a s' | err e ↦ (err e, s') ]

  abbrev pub ◌>>◌ : Action S E A → Action S E B → Action S E B
  m >> k = m >>= λ _. k

module _ {S E A B : Type 0} (m : Action S E A) (f : A → Action S E B) where
  abbrev continue : Result E A × S → Result E B × S
  continue (ok a, s) = f a s
  continue (err e, s) = (err e, s)

  bind-continue :
      (r : Result E A) (s : S) → (elim r [ ok a ↦ f a s | err e ↦ (err e, s) ]) ≡ continue (r, s)
  bind-continue (ok a) s = refl
  bind-continue (err e) s = refl

  -- What comes after a call that returned, and after one that raised.
  pub bind-ok : {s s' : S} {a : A} → m s ≡ (ok a, s') → (m >>= f) s ≡ f a s'
  bind-ok {s} e = bind-continue (m s).0 (m s).1 ∙ ap continue e

  pub bind-err : {s s' : S} {x : E} → m s ≡ (err x, s') → (m >>= f) s ≡ (err x, s')
  bind-err {s} e = bind-continue (m s).0 (m s).1 ∙ ap continue e

clash : {E A : Type 0} (a : A) (x : E) → ◌≢◌ {A = Result E A} (ok a) (err x)
clash a x h = cc

pub Result-cases :
    {E A : Type 0} (r : Result E A) → ((a : A) × (r ≡ ok a)) ⊎ ((e : E) × (r ≡ err e))
Result-cases (ok a) = inl (a, refl)
Result-cases (err e) = inr (e, refl)

-- A raise passed on in another type.
abbrev carry : {S E A B : Type 0} → E → Result E B × S → Result E A × S
carry x (ok b, s) = (err x, s)
carry x (err y, s) = (err y, s)

module _ {S E A B : Type 0} (m : Action S E A) (f : A → Action S E B) where
  -- What returned went through both calls.
  pub bind-inv :
      {s : S} {b : B} {t : S}
      → (m >>= f) s ≡ (ok b, t)
      → (a : A) × (s' : S) × (m s ≡ (ok a, s')) × (f a s' ≡ (ok b, t))
  bind-inv {s} {b} {t} run = elim (Result-cases (m s).0) [
    | inl (a, returned) ↦
        let first = ap (λ (r : Result E A). (r, (m s).1)) returned in
        (a, (m s).1, first, sym (bind-ok m f first) ∙ run)
    | inr (x, raised) ↦
        let first = ap (λ (r : Result E A). (r, (m s).1)) raised in
        absurd (clash b x (ap (λ (q : Result E B × S). q.0) (sym run ∙ bind-err m f first)))
  ]

  -- What raised did so in the first call or in the second.
  pub bind-split :
      {s : S} {x : E} {t : S}
      → (m >>= f) s ≡ (err x, t)
      → (m s ≡ (err x, t)) ⊎ ((a : A) × (s' : S) × (m s ≡ (ok a, s')) × (f a s' ≡ (err x, t)))
  bind-split {s} {x} {t} run = elim (Result-cases (m s).0) [
    | inl (a, returned) ↦
        let first = ap (λ (r : Result E A). (r, (m s).1)) returned in
        inr (a, (m s).1, first, sym (bind-ok m f first) ∙ run)
    | inr (y, raised) ↦
        let first = ap (λ (r : Result E A). (r, (m s).1)) raised in
        let whole = sym run ∙ bind-err m f first in inl (first ∙ ap (carry x) (sym whole))
  ]
