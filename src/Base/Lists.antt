-- ===== src/Base/Lists.antt =====
-- Lists over the native numbers, and membership tests on lists of texts.
use Prim.Native.Nat.{ℕ, suc, ◌+◌, ◌≤◌}
use Prim.Native.String.{String}
use mathlib.Core.Path.{◌≡◌, refl, ap}
use mathlib.Core.Logic.{inl, inr}
use mathlib.Core.Bool.{Bool, true, false, ◌||◌, ◌&&◌}
use mathlib.Core.List.{List, [], ◌∷◌, ◌++◌}
use native.Mathlib.Omega.{arith}
use text.Mathlib.Text.{◌==◌ as str_eq}
use text.Mathlib.TextEquality.{eq_iff}
use selfprivacy_api.Base.Tests.{if◌then◌else◌, Bool-cases}

module _ {ℓ} {A : Type ℓ} where
  abbrev pub length : List A → ℕ
  length [] = 0
  length (x ∷ xs) = suc (length xs)

  pub length-append : (xs ys : List A) → length (xs ++ ys) ≡ length xs + length ys
  length-append [] ys = omega arith
  length-append (x ∷ xs) ys = omega (arith, length-append xs ys)

  -- `[x for x in xs if p(x)]`
  abbrev pub keep : (A → Bool) → List A → List A
  keep p [] = []
  keep p (x ∷ xs) = let rest = keep p xs in if p x then x ∷ rest else rest

  -- `any(p(x) for x in xs)`
  abbrev pub any : (A → Bool) → List A → Bool
  any p [] = false
  any p (x ∷ xs) = p x || any p xs

  -- `all(p(x) for x in xs)`
  abbrev pub all : (A → Bool) → List A → Bool
  all p [] = true
  all p (x ∷ xs) = p x && all p xs

  pub length-keep-le : (p : A → Bool) (xs : List A) → length (keep p xs) ≤ length xs
  length-keep-le p [] = omega arith
  length-keep-le p (x ∷ xs) = ground (arith, length-keep-le p xs)

-- `k in ks`
unfoldable pub str_mem : String → List String → Bool
str_mem k [] = false
str_mem k (j ∷ ks) = str_eq j k || str_mem k ks

-- `ks.remove(k)`: the first occurrence goes.
unfoldable pub str_remove : String → List String → List String
str_remove k [] = []
str_remove k (j ∷ ks) = if str_eq j k then ks else j ∷ str_remove k ks

-- `ks` lists nothing twice.
abbrev pub StrNodup : List String → Type 0
StrNodup [] = Unit
StrNodup (k ∷ ks) = (str_mem k ks ≡ false) × StrNodup ks

pub str_mem-append :
    (k : String) (xs ys : List String) → str_mem k (xs ++ ys) ≡ (str_mem k xs || str_mem k ys)
unfolding str_mem
str_mem-append k [] ys = refl
str_mem-append k (x ∷ xs) ys = ground (arith, str_mem-append k xs ys)

pub str_mem-str_remove_ne :
    (j k : String) (xs : List String)
    → str_eq k j ≡ false
    → str_mem j (str_remove k xs) ≡ str_mem j xs
unfolding str_mem str_remove
str_mem-str_remove_ne j k [] h = refl
str_mem-str_remove_ne j k (x ∷ xs) h =
    ground (arith, str_mem-str_remove_ne j k xs h, eq_iff x k, eq_iff x j, eq_iff k j)

pub str_mem-str_remove_self :
    (k : String) (xs : List String) → StrNodup xs → str_mem k (str_remove k xs) ≡ false
unfolding str_mem str_remove
str_mem-str_remove_self k [] h = refl
str_mem-str_remove_self k (x ∷ xs) h = ground (arith, str_mem-str_remove_self k xs h.1, eq_iff x k)

pub str_mem-keep :
    (p : String → Bool) (k : String) (xs : List String)
    → str_mem k (keep p xs) ≡ (str_mem k xs && p k)
unfolding str_mem
str_mem-keep p k [] = refl
str_mem-keep p k (x ∷ xs) = elim (Bool-cases (str_eq x k)) [
  | inl same ↦ ground (arith, str_mem-keep p k xs, ap p ((eq_iff x k).0 same), same)
  | inr unlike ↦ ground (arith, str_mem-keep p k xs, unlike)
]
