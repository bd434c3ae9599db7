-- ===== src/Base/Text.antt =====
-- Texts as the bytes of their ASCII characters, and the comparison of two byte strings.
use Prim.Native.Nat.{ℕ, ◌≤◌}
use Prim.Native.Char.{code}
use Prim.Native.String.{String}
use mathlib.Core.Path.{◌≡◌, refl}
use mathlib.Core.Bool.{Bool, true, false, ◌&&◌}
use mathlib.Core.List.{List, [], ◌∷◌}
use native.Mathlib.Omega.{arith}
use mathlib.Core.Logic.{◌≢◌}
use dog_server.Base.Tests.{◌==◌, if◌then◌else◌}
use dog_server.Base.Lists.{All}

abbrev pub codes : String → List ℕ
codes String.[] = []
codes (String.◌∷◌ c s) = code c ∷ codes s

unfoldable pub str_eq : List ℕ → List ℕ → Bool
str_eq [] [] = true
str_eq [] (y ∷ ys) = false
str_eq (x ∷ xs) [] = false
str_eq (x ∷ xs) (y ∷ ys) = x == y && str_eq xs ys

pub str_eq_refl : (xs : List ℕ) → str_eq xs xs ≡ true
unfolding str_eq
str_eq_refl [] = refl
str_eq_refl (x ∷ xs) = ground (arith, str_eq_refl xs)

pub str_eq_sound : (xs ys : List ℕ) → str_eq xs ys ≡ true → xs ≡ ys
unfolding str_eq
str_eq_sound [] [] h = refl
str_eq_sound [] (y ∷ ys) h = ground arith
str_eq_sound (x ∷ xs) [] h = ground arith
str_eq_sound (x ∷ xs) (y ∷ ys) h = ground (arith, str_eq_sound xs ys)

-- What C reads of a text: the bytes before the first 0.
unfoldable pub c_str : List ℕ → List ℕ
c_str [] = []
c_str (c ∷ cs) = if c == 0 then [] else c ∷ c_str cs

pub c_str_lem : (xs : List ℕ) → All (λ x. x ≢ 0) xs → c_str xs ≡ xs
unfolding c_str
c_str_lem [] h = refl
c_str_lem (x ∷ xs) h = ground (arith, c_str_lem xs h.1)

-- Bytes that are printed, and no space.
abbrev pub IsWord : List ℕ → Type 0
IsWord word = All (λ (c : ℕ). (33 ≤ c) × (c ≤ 126)) word

abbrev pub NoZero : List ℕ → Type 0
NoZero xs = All (λ (c : ℕ). c ≢ 0) xs

pub IsWord-NoZero : (word : List ℕ) → IsWord word → NoZero word
IsWord-NoZero [] h = tt
IsWord-NoZero (c ∷ word) h = (ground (arith, h.0), IsWord-NoZero word h.1)
