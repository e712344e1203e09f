-- ===== src/Prelude/Text.antt =====
-- `std::string` as the list of its bytes: comparison, order, and the text of a number.
use Prim.Native.Nat.{ℕ, zero, suc, ◌+◌, ◌/◌, ◌%◌}
use Prim.Native.Char.{code}
use Prim.Native.String.{String}
use mathlib.Core.Path.{◌≡◌, refl}
use mathlib.Core.Bool.{Bool, true, false, ◌&&◌}
use mathlib.Core.Logic.{◌↔◌}
use mathlib.Core.List.{List, [], ◌∷◌, ◌++◌}
use native.Mathlib.Omega.{arith}
use nsb_ci.Prelude.Tests.{ltb, ◌==◌, if◌then◌else◌}
use nsb_ci.Prelude.Int.{ℤ, pos, negsuc}

abbrev pub Bytes : Type 0
Bytes = List ℕ

-- A literal of the source.
abbrev pub bytes : String → Bytes
bytes String.[] = []
bytes (String.◌∷◌ c s) = code c ∷ bytes s

unfoldable pub str_eq : Bytes → Bytes → Bool
str_eq [] [] = true
str_eq [] (b ∷ t) = false
str_eq (a ∷ s) [] = false
str_eq (a ∷ s) (b ∷ t) = (a == b) && str_eq s t

pub str_eq_iff : (s t : Bytes) → (str_eq s t ≡ true) ↔ (s ≡ t)
unfolding str_eq
str_eq_iff [] [] = ground arith
str_eq_iff [] (b ∷ t) = ground arith
str_eq_iff (a ∷ s) [] = ground arith
str_eq_iff (a ∷ s) (b ∷ t) = ground (arith, str_eq_iff s t)

pub str_eq_refl : (s : Bytes) → str_eq s s ≡ true
str_eq_refl s = (str_eq_iff s s).1 refl

-- `std::less<std::string>`: lexicographic on the bytes.
unfoldable pub str_lt : Bytes → Bytes → Bool
str_lt [] [] = false
str_lt [] (b ∷ t) = true
str_lt (a ∷ s) [] = false
str_lt (a ∷ s) (b ∷ t) = if a == b then str_lt s t else ltb a b

pub str_lt_irrefl : (s : Bytes) → str_lt s s ≡ false
unfolding str_lt
str_lt_irrefl [] = refl
str_lt_irrefl (a ∷ s) = ground (arith, str_lt_irrefl s)

pub str_lt_trans : (s t u : Bytes) → str_lt s t ≡ true → str_lt t u ≡ true → str_lt s u ≡ true
unfolding str_lt
str_lt_trans [] [] u p q = ground arith
str_lt_trans [] (b ∷ t) [] p q = ground arith
str_lt_trans [] (b ∷ t) (c ∷ u) p q = refl
str_lt_trans (a ∷ s) [] u p q = ground arith
str_lt_trans (a ∷ s) (b ∷ t) [] p q = ground arith
str_lt_trans (a ∷ s) (b ∷ t) (c ∷ u) p q = ground (arith, str_lt_trans s t u)

pub str_lt_total : (s t : Bytes) → str_eq s t ≡ false → str_lt s t ≡ false → str_lt t s ≡ true
unfolding str_eq str_lt
str_lt_total [] [] p q = ground arith
str_lt_total [] (b ∷ t) p q = ground arith
str_lt_total (a ∷ s) [] p q = refl
str_lt_total (a ∷ s) (b ∷ t) p q = ground (arith, str_lt_total s t)

abbrev pub is_empty {ℓ} : {A : Type ℓ} → List A → Bool
is_empty [] = true
is_empty (x ∷ xs) = false

-- The decimal digits of `n`, with fuel above `n`.
unfoldable pub digits : ℕ → ℕ → Bytes
digits zero n = []
digits (suc f) n =
    let rest = digits f (n / 10) in if ltb n 10 then (48 + n) ∷ [] else rest ++ (48 + n % 10) ∷ []

-- `std::to_string` of an int: 45 is the minus sign.
unfoldable pub to_string : ℤ → Bytes
unfolding digits
to_string (pos n) = digits (n + 1) n
to_string (negsuc n) = 45 ∷ digits (n + 2) (n + 1)
