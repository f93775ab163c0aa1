-- ===== src/Tokens/Names.antt =====
-- `AbstractTokensRepository._make_unique_device_name`
-- (selfprivacy_api/repositories/tokens/abstract_tokens_repository.py).
use Prim.Native.Char.{code}
use selfprivacy_api.Base.{
  ℕ, zero, suc, ◌+◌, ◌≤◌, ◌<◌, ◌≡◌, String, Char, Bool, true, false, Option, none, some, ◌||◌, ◌&&◌,
  str_eq, List, [], ◌∷◌, leb, ltb, ◌==◌, if◌then◌else◌, any, arith, Bool-cases, inl, inr, refl,
  eq_iff,
}
use selfprivacy_api.Tokens.Models.{Token}

-- `[a-zA-Z0-9]`
abbrev pub is_alnum : Char → Bool
is_alnum c =
    (leb b'a' (code c) && leb (code c) b'z')
    || (leb b'A' (code c) && leb (code c) b'Z')
    || (leb b'0' (code c) && leb (code c) b'9')

abbrev pub is_empty : String → Bool
is_empty String.[] = true
is_empty (String.◌∷◌ _ _) = false

-- `re.match("^[a-zA-Z0-9]*$", name)`: `$` also matches before a newline at the end.
unfoldable pub matches_alnum : String → Bool
matches_alnum String.[] = true
matches_alnum (String.◌∷◌ c s) = (is_alnum c && matches_alnum s) || (code c == 10 && is_empty s)

-- `re.sub("[^a-zA-Z0-9]", "_", name)`
unfoldable pub replace_invalid : String → String
replace_invalid String.[] = String.[]
replace_invalid (String.◌∷◌ c s) = String.◌∷◌ (if is_alnum c then c else "_") (replace_invalid s)

unfoldable pub clean_name : String → String
unfolding matches_alnum replace_invalid
clean_name name =
    let replaced = if matches_alnum name then name else replace_invalid name in
    if is_empty replaced then "Unknown device" else replaced

-- `name += str(randbelow(10))`, the digit being `c`
unfoldable pub add_digit : String → Char → String
add_digit String.[] c = String.◌∷◌ c String.[]
add_digit (String.◌∷◌ d s) c = String.◌∷◌ d (add_digit s c)

-- `token_name in [token.device_name for token in await self.get_tokens()]`
abbrev pub name_exists : List Token → String → Bool
name_exists tokens name = any (λ t. str_eq t.device_name name) tokens

abbrev pub size : String → ℕ
size String.[] = 0
size (String.◌∷◌ _ s) = suc (size s)

-- The `while` loop, on fuel; `i` counts the digits drawn.
unfoldable pub add_digits : (ℕ → Char) → List Token → ℕ → ℕ → String → Option String
unfolding add_digit
add_digits digits tokens zero i name = none
add_digits digits tokens (suc fuel) i name =
    let longer = add_digits digits tokens fuel (i + 1) (add_digit name (digits i)) in
    if name_exists tokens name then longer else some name

abbrev pub longest_name : List Token → ℕ
longest_name [] = 0
longest_name (t ∷ ts) =
    if ltb (longest_name ts) (size t.device_name) then size t.device_name else longest_name ts

-- Two rounds more than the longest name in the repository has characters.
unfoldable pub make_unique_device_name : (ℕ → Char) → List Token → String → Option String
unfolding add_digits clean_name
make_unique_device_name digits tokens name =
    add_digits digits tokens (suc (suc (longest_name tokens))) 0 (clean_name name)

size-add_digit : (s : String) (c : Char) → size (add_digit s c) ≡ suc (size s)
unfolding add_digit
size-add_digit String.[] c = refl
size-add_digit (String.◌∷◌ d s) c = omega (arith, size-add_digit s c)

size-le-longest_name :
    (ts : List Token) (name : String) → name_exists ts name ≡ true → size name ≤ longest_name ts
size-le-longest_name [] name h = ground arith
size-le-longest_name (t ∷ ts) name h =
    ground (arith, size-le-longest_name ts name, eq_iff t.device_name name)

add_digits_fresh :
    (digits : ℕ → Char) (ts : List Token) (fuel i : ℕ) (name : String)
    → longest_name ts < size name + fuel
    → (r : String) × (add_digits digits ts (suc fuel) i name ≡ some r) × (name_exists ts r ≡ false)
unfolding add_digits
add_digits_fresh digits ts zero i name h = elim (Bool-cases (name_exists ts name)) [
  | inl old ↦ absurd (omega (arith, size-le-longest_name ts name old))
  | inr new ↦ (name, rw new, new)
]
add_digits_fresh digits ts (suc fuel) i name h = elim (Bool-cases (name_exists ts name)) [
  | inl old ↦ rw old (
      add_digits_fresh digits ts fuel (i + 1) (add_digit name (digits i))
        (omega (arith, size-add_digit name (digits i))))
  | inr new ↦ (name, rw new, new)
]

-- The loop ends within the fuel, and the name that it returns is not in the repository.
pub make_unique_device_name_fresh :
    (digits : ℕ → Char) (ts : List Token) (name : String)
    → (r : String) × (make_unique_device_name digits ts name ≡ some r) × (name_exists ts r ≡ false)
unfolding make_unique_device_name
make_unique_device_name_fresh digits ts name =
    add_digits_fresh digits ts (suc (longest_name ts)) 0 (clean_name name) (omega arith)
