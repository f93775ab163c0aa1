-- ===== src/Base/Kept.antt =====
-- Methods that leave a part of the state as it was.
use mathlib.Core.Path.{◌≡◌, sym, ap, subst, ◌∙◌}
use mathlib.Core.Logic.{inl, inr}
use selfprivacy_api.Base.Monad.{Result, ok, err, Action, ◌>>=◌, bind-ok, bind-err, Result-cases}

-- A property of what a chain gives, from what its first call does.
pub bind-elim :
    {S E A B : Type 0} (P : Result E B × S → Type 0) (m : Action S E A) (f : A → Action S E B)
    (s : S)
    → ((a : A) → (m s).0 ≡ ok a → P (f a (m s).1))
    → ((x : E) → (m s).0 ≡ err x → P (err x, (m s).1))
    → P ((m >>= f) s)
bind-elim {S} {E} {A} {B} P m f s good bad = elim (Result-cases (m s).0) [
  | inl (a, returned) ↦
      subst P (sym (bind-ok m f {s = s} (ap (λ (r : Result E A). (r, (m s).1)) returned)))
        (good a returned)
  | inr (x, raised) ↦
      subst P (sym (bind-err m f {s = s} (ap (λ (r : Result E A). (r, (m s).1)) raised)))
        (bad x raised)
]

module _ {S T : Type 0} (at : S → T) where
  -- The call does not change the part.
  abbrev pub Keeps : {E A : Type 0} → Action S E A → Type 0
  Keeps m = (s : S) → at (m s).1 ≡ at s

  pub bind-Keeps :
      {E A B : Type 0} (m : Action S E A) (f : A → Action S E B)
      → Keeps m
      → ((a : A) → Keeps (f a))
      → Keeps (m >>= f)
  bind-Keeps {E = E} {B = B} m f h rest s =
      bind-elim (λ (q : Result E B × S). at q.1 ≡ at s) m f s (λ a returned. rest a (m s).1 ∙ h s)
        (λ x raised. h s)
