-- ===== src/Prelude/CStrings.antt =====
-- C strings as lists of byte values without the terminating NUL, and what the program uses of
-- <string.h> and <stdio.h>.
use Prim.Native.Nat.{ℕ, ◌+◌, ◌-◌, ◌/◌, ◌%◌, ◌≤◌}
use Prim.Native.Char.{code}
use Prim.Native.String.{String}
use mathlib.Core.Path.{◌≡◌, refl, ap₂}
use mathlib.Core.Logic.{inl, inr}
use mathlib.Core.Bool.{Bool, true, false, ◌&&◌}
use mathlib.Core.Option.{Option, none, some}
use mathlib.Core.List.{List, [], ◌∷◌}
use native.Mathlib.Omega.{arith}
use esp32_hydroponics_govern.Prelude.Tests.{◌==◌, ltb, if◌then◌else◌, Bool-cases, ==_iff}
use esp32_hydroponics_govern.Prelude.Lists.{length, take}

abbrev pub Text : Type 0
Text = List ℕ

-- The bytes of an ASCII literal.
unfoldable pub codes : String → Text
codes String.[] = []
codes (String.◌∷◌ c s) = code c ∷ codes s

-- The string that a char array holds: the bytes before the first NUL.
unfoldable pub cstr : List ℕ → Text
cstr [] = []
cstr (c ∷ s) = let rest = cstr s in if c == 0 then [] else c ∷ rest

-- `strcmp(a, b) == 0`
unfoldable pub text_eq : Text → Text → Bool
text_eq [] [] = true
text_eq [] (y ∷ b) = false
text_eq (x ∷ a) [] = false
text_eq (x ∷ a) (y ∷ b) = x == y && text_eq a b

-- `strncmp(s, key, strlen(key)) == 0`
unfoldable pub starts_with : Text → Text → Bool
starts_with key [] = elim key [ [] ↦ true | _ ∷ _ ↦ false ]
starts_with [] (c ∷ s) = true
starts_with (k ∷ key) (c ∷ s) = k == c && starts_with key s

-- `strstr(s, key)`: the rest of `s` from the first place where `key` stands.
unfoldable pub strstr : Text → Text → Option Text
unfolding starts_with
strstr key [] = if starts_with key [] then some [] else none
strstr key (c ∷ s) =
    let rest = strstr key s in if starts_with key (c ∷ s) then some (c ∷ s) else rest

-- The bytes before the first `stop`, all of them where it does not occur (`strchr`).
unfoldable pub before : ℕ → Text → Text
before stop [] = []
before stop (c ∷ s) = let rest = before stop s in if c == stop then [] else c ∷ rest

-- `strncpy(dst, src, n - 1); dst[n - 1] = '\0'` into a zeroed or terminated array of `n` bytes.
abbrev pub copy_str : ℕ → Text → Text
copy_str n s = take (n - 1) s

-- What `%d` prints of a number below 1000, the widest that the program prints that way.
unfoldable pub decimal : ℕ → Text
decimal n =
    if ltb n 10
    then (48 + n) ∷ []
    else (if ltb n 100
        then (48 + n / 10) ∷ (48 + n % 10) ∷ []
        else (48 + n / 100) ∷ (48 + n / 10 % 10) ∷ (48 + n % 10) ∷ [])

pub text_eq_refl : (a : Text) → text_eq a a ≡ true
unfolding text_eq
text_eq_refl [] = refl
text_eq_refl (x ∷ a) = ground (arith, text_eq_refl a)

pub text_eq_sound : (a b : Text) → text_eq a b ≡ true → a ≡ b
unfolding text_eq
text_eq_sound [] [] h = refl
text_eq_sound [] (y ∷ b) h = absurd (cc h)
text_eq_sound (x ∷ a) [] h = absurd (cc h)
text_eq_sound (x ∷ a) (y ∷ b) h = elim (Bool-cases (x == y)) [
  | inl e ↦ ap₂ ◌∷◌ ((==_iff x y).0 e) (text_eq_sound a b (ground arith))
  | inr n ↦ absurd (ground arith)
]

pub length-cstr : (s : List ℕ) → length (cstr s) ≤ length s
unfolding cstr
length-cstr [] = omega arith
length-cstr (c ∷ s) = ground (arith, length-cstr s)

pub length-before : (stop : ℕ) (s : Text) → length (before stop s) ≤ length s
unfolding before
length-before stop [] = omega arith
length-before stop (c ∷ s) = ground (arith, length-before stop s)

pub length-decimal : (n : ℕ) → length (decimal n) ≤ 3
unfolding decimal
length-decimal n = ground arith
