-- ===== src/Prelude/Lists.antt =====
-- Lists measured by native numbers, and predicates on all their elements.
use Prim.Native.Nat.{ℕ, zero, suc, ◌+◌, ◌≤◌}
use mathlib.Core.Path.{◌≡◌, refl, sym, ap, ◌∙◌, subst}
use mathlib.Core.Bool.{Bool}
use mathlib.Core.List.{List, [], ◌∷◌, ◌++◌}
use native.Mathlib.Omega.{arith}
use nsb_ci.Prelude.Tests.{if◌then◌else◌}

module _ {ℓ} {A : Type ℓ} where
  abbrev pub length : List A → ℕ
  length [] = 0
  length (x ∷ xs) = suc (length xs)

  abbrev pub take : ℕ → List A → List A
  take zero xs = []
  take (suc n) [] = []
  take (suc n) (x ∷ xs) = x ∷ take n xs

  abbrev pub drop : ℕ → List A → List A
  drop zero xs = xs
  drop (suc n) [] = []
  drop (suc n) (x ∷ xs) = drop n xs

  pub length-append : (xs ys : List A) → length (xs ++ ys) ≡ length xs + length ys
  length-append [] ys = omega arith
  length-append (x ∷ xs) ys = omega (arith, length-append xs ys)

  pub take-drop : (n : ℕ) (bs : List A) → take n bs ++ drop n bs ≡ bs
  take-drop zero bs = refl
  take-drop (suc n) [] = refl
  take-drop (suc n) (b ∷ bs) = ap (λ l. b ∷ l) (take-drop n bs)

  pub drop_nil : (m : ℕ) → drop m [] ≡ []
  drop_nil zero = refl
  drop_nil (suc m) = refl

  pub drop-drop : (n m : ℕ) (bs : List A) → drop m (drop n bs) ≡ drop (n + m) bs
  drop-drop zero m bs = ground arith
  drop-drop (suc n) m [] = drop_nil m ∙ sym (drop_nil (suc n + m))
  drop-drop (suc n) m (b ∷ bs) =
      let e : suc (n + m) ≡ suc n + m = omega arith in
      subst (λ k. drop m (drop n bs) ≡ drop k (b ∷ bs)) e (drop-drop n m bs)

  pub drop_all : (n : ℕ) (bs : List A) → length bs ≤ n → drop n bs ≡ []
  drop_all zero [] h = refl
  drop_all zero (b ∷ bs) h = absurd (omega arith)
  drop_all (suc n) [] h = refl
  drop_all (suc n) (b ∷ bs) h = drop_all n bs (omega arith)

  pub take_all : (n : ℕ) (xs : List A) → length xs ≤ n → take n xs ≡ xs
  take_all zero [] h = refl
  take_all zero (x ∷ xs) h = absurd (omega arith)
  take_all (suc n) [] h = refl
  take_all (suc n) (x ∷ xs) h = ap (λ l. x ∷ l) (take_all n xs (omega arith))

  pub length-take : (n : ℕ) (xs : List A) → length (take n xs) ≤ n
  length-take zero xs = omega arith
  length-take (suc n) [] = omega arith
  length-take (suc n) (x ∷ xs) = omega (arith, length-take n xs)

  pub take-length : (xs ys : List A) → take (length xs) (xs ++ ys) ≡ xs
  take-length [] ys = refl
  take-length (x ∷ xs) ys = ap (λ l. x ∷ l) (take-length xs ys)

  pub drop-length : (xs ys : List A) → drop (length xs) (xs ++ ys) ≡ ys
  drop-length [] ys = refl
  drop-length (x ∷ xs) ys = drop-length xs ys

  pub take-take : (n m : ℕ) (xs : List A) → n ≤ m → take n (take m xs) ≡ take n xs
  take-take zero m xs h = refl
  take-take (suc n) zero xs h = absurd (omega arith)
  take-take (suc n) (suc m) [] h = refl
  take-take (suc n) (suc m) (x ∷ xs) h = ap (λ l. x ∷ l) (take-take n m xs (omega arith))

  pub take_more : (a n : ℕ) (xs : List A) → take a xs ++ take n (drop a xs) ≡ take (a + n) xs
  take_more zero n xs = let e : 0 + n ≡ n = omega arith in rw e refl
  take_more (suc a) zero [] = let e : suc a + 0 ≡ suc a = omega arith in rw e refl
  take_more (suc a) (suc n) [] = let e : suc a + suc n ≡ suc (a + suc n) = omega arith in rw e refl
  take_more (suc a) n (x ∷ xs) =
      let e : suc a + n ≡ suc (a + n) = omega arith in rw e (ap (λ l. x ∷ l) (take_more a n xs))

  -- The elements that pass a Boolean test, in their order.
  unfoldable pub keep : (A → Bool) → List A → List A
  keep p [] = []
  keep p (x ∷ xs) = let rest = keep p xs in if p x then x ∷ rest else rest

  pub keep-append : (p : A → Bool) (xs ys : List A) → keep p (xs ++ ys) ≡ keep p xs ++ keep p ys
  unfolding keep
  keep-append p [] ys = refl
  keep-append p (x ∷ xs) ys = ground (arith, keep-append p xs ys)

abbrev pub All {ℓ κ} : {A : Type ℓ} → (A → Type κ) → List A → Type κ
All P [] = Unit
All P (x ∷ xs) = P x × All P xs
