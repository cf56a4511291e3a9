-- ===== src/Base/Text.antt =====
-- Texts as their bytes: literals, equality, and the decimal digits that operator<< prints.
use Prim.Native.Char.{code}
use Prim.Native.String.{String}
use Prim.Native.Nat.{ℕ, zero, suc, ◌+◌, ◌/◌, ◌%◌}
use mathlib.Core.Path.{◌≡◌, refl}
use mathlib.Core.Bool.{Bool, true, false}
use mathlib.Core.List.{List, [], ◌∷◌, ◌++◌}
use native.Mathlib.Omega.{arith}
use uiconnect.Base.Tests.{ltb, ◌==◌, if◌then◌else◌}

abbrev pub codes : String → List ℕ
codes String.[] = []
codes (String.◌∷◌ c s) = code c ∷ codes s

-- std::string::operator==
unfoldable pub equal_text : List ℕ → List ℕ → Bool
equal_text [] [] = true
equal_text [] (y ∷ ys) = false
equal_text (x ∷ xs) [] = false
equal_text (x ∷ xs) (y ∷ ys) = let rest = equal_text xs ys in if x == y then rest else false

pub equal_text_self : (xs : List ℕ) → equal_text xs xs ≡ true
unfolding equal_text
equal_text_self [] = refl
equal_text_self (x ∷ xs) = ground (arith, equal_text_self xs)

pub equal_text-eq : (xs ys : List ℕ) → equal_text xs ys ≡ true → xs ≡ ys
unfolding equal_text
equal_text-eq [] [] h = refl
equal_text-eq [] (y ∷ ys) h = cc
equal_text-eq (x ∷ xs) [] h = cc
equal_text-eq (x ∷ xs) (y ∷ ys) h = ground (arith, equal_text-eq xs ys)

-- A number below 10 ^ (fuel + 1) in decimal digits.
unfoldable pub digits_from : ℕ → ℕ → List ℕ
digits_from zero n = (48 + n % 10) ∷ []
digits_from (suc fuel) n =
    let more = digits_from fuel (n / 10) in
    if ltb n 10 then (48 + n) ∷ [] else more ++ (48 + n % 10) ∷ []

-- operator<< of an integer of at most 64 bits, which has at most 20 digits
unfoldable pub decimal : ℕ → List ℕ
unfolding digits_from
decimal n = digits_from 19 n
