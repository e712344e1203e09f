-- ===== src/Db/Decimal.antt =====
-- The text that `std::to_string` makes of a number, read back, for the keys of cpp/include/nsb.h.
use nsb_ci.Prelude.{
  ℕ, zero, suc, ◌+◌, ◌-◌, ◌*◌, ◌/◌, ◌%◌, ◌<◌, ltb, ℤ, pos, negsuc, Bytes, to_string, [], ◌∷◌, ◌++◌,
  ◌≡◌, refl, ◌≢◌, ap, sym, ◌∙◌, arith, All, digits, subst, inl, inr, Bool-cases,
}

unfoldable pub value_from : ℕ → Bytes → ℕ
value_from acc [] = acc
value_from acc (b ∷ bs) = value_from (acc * 10 + (b - 48)) bs

value_from-append :
    (acc : ℕ) (bs : Bytes) (b : ℕ)
    → value_from acc (bs ++ b ∷ []) ≡ value_from acc bs * 10 + (b - 48)
unfolding value_from
value_from-append acc [] b = refl
value_from-append acc (x ∷ bs) b = value_from-append (acc * 10 + (x - 48)) bs b

pub value-digits : (f n : ℕ) → n < f → value_from 0 (digits f n) ≡ n
unfolding digits value_from
value-digits zero n h = absurd (omega arith)
value-digits (suc f) n h =
    ground (arith, value-digits f (n / 10), value_from-append 0 (digits f (n / 10)) (48 + n % 10))

-- The number that a text of digits stands for.
pub parse_decimal : Bytes → ℕ
parse_decimal bs = value_from 0 bs

pub parse_decimal-to_string : (n : ℕ) → parse_decimal (to_string (pos n)) ≡ n
unfolding parse_decimal to_string
parse_decimal-to_string n = value-digits (n + 1) n (omega arith)

pub to_string-injective : (m n : ℕ) → to_string (pos m) ≡ to_string (pos n) → m ≡ n
to_string-injective m n h =
    sym (parse_decimal-to_string m) ∙ ap parse_decimal h ∙ parse_decimal-to_string n

abbrev pub NoDash : Bytes → Type 0
NoDash = All (λ b. b ≢ 45)

NoDash-append : (xs ys : Bytes) → NoDash xs → NoDash ys → NoDash (xs ++ ys)
NoDash-append [] ys p q = q
NoDash-append (x ∷ xs) ys p q = (p.0, NoDash-append xs ys p.1 q)

digits-NoDash : (f n : ℕ) → NoDash (digits f n)
unfolding digits
digits-NoDash zero n = tt
digits-NoDash (suc f) n = elim (Bool-cases (ltb n 10)) [
  | inl small ↦ rw small ((λ e. omega arith), tt)
  | inr large ↦ rw large (
      NoDash-append (digits f (n / 10)) ((48 + n % 10) ∷ []) (digits-NoDash f (n / 10))
        ((λ e. omega arith), tt))
]

pub to_string-NoDash : (n : ℕ) → NoDash (to_string (pos n))
unfolding to_string
to_string-NoDash n = digits-NoDash (n + 1) n

not_dash : (xs ys : Bytes) → NoDash (xs ++ 45 ∷ ys) → ⊥
not_dash [] ys p = p.0 refl
not_dash (x ∷ xs) ys p = not_dash xs ys p.1

-- A text splits at its last dash in one way.
pub last_part :
    (xs ys ds es : Bytes)
    → NoDash ds
    → NoDash es
    → xs ++ 45 ∷ ds ≡ ys ++ 45 ∷ es
    → (xs ≡ ys) × (ds ≡ es)
last_part [] [] ds es p q h = (refl, cc)
last_part [] (y ∷ ys) ds es p q h =
    let e : ds ≡ ys ++ 45 ∷ es = cc in absurd (not_dash ys es (subst NoDash e p))
last_part (x ∷ xs) [] ds es p q h =
    let e : es ≡ xs ++ 45 ∷ ds = cc in absurd (not_dash xs ds (subst NoDash e q))
last_part (x ∷ xs) (y ∷ ys) ds es p q h = let (e, f) = last_part xs ys ds es p q (cc) in (cc, f)

-- ... and at its first dash.
pub first_part :
    (ds es xs ys : Bytes) → NoDash ds → NoDash es → ds ++ 45 ∷ xs ≡ es ++ 45 ∷ ys → xs ≡ ys
first_part [] [] xs ys p q h = cc
first_part [] (e ∷ es) xs ys p q h = absurd (q.0 (cc))
first_part (d ∷ ds) [] xs ys p q h = absurd (p.0 (cc))
first_part (d ∷ ds) (e ∷ es) xs ys p q h = first_part ds es xs ys p.1 q.1 (cc)

snoc-ne-nil : (xs : Bytes) (b : ℕ) → xs ++ b ∷ [] ≢ []
snoc-ne-nil [] b e = cc
snoc-ne-nil (x ∷ xs) b e = cc

digits-ne-nil : (f n : ℕ) → digits (suc f) n ≢ []
unfolding digits
digits-ne-nil f n = elim (Bool-cases (ltb n 10)) [
  | inl small ↦ rw small (λ e. cc)
  | inr large ↦ rw large (snoc-ne-nil (digits f (n / 10)) (48 + n % 10))
]

head-NoDash : (ds xs ys : Bytes) → NoDash ds → ds ≢ [] → ds ++ 45 ∷ xs ≢ 45 ∷ ys
head-NoDash [] xs ys p n e = n refl
head-NoDash (d ∷ ds) xs ys p n e = p.0 (cc)

pub to_string-ne-nil : (n : ℕ) → to_string (pos n) ≢ []
unfolding to_string
to_string-ne-nil n = let e : n + 1 ≡ suc n = omega arith in rw e (digits-ne-nil n n)

-- A text that begins with an int and a dash determines what comes after them.
pub after_int :
    (t u : ℤ) (xs ys : Bytes) → to_string t ++ 45 ∷ xs ≡ to_string u ++ 45 ∷ ys → xs ≡ ys
unfolding to_string
after_int (pos m) (pos n) xs ys h =
    first_part (digits (m + 1) m) (digits (n + 1) n) xs ys (digits-NoDash (m + 1) m)
      (digits-NoDash (n + 1) n) h
after_int (pos m) (negsuc n) xs ys h =
    absurd (head-NoDash (to_string (pos m)) xs _ (to_string-NoDash m) (to_string-ne-nil m) h)
after_int (negsuc m) (pos n) xs ys h =
    absurd (head-NoDash (to_string (pos n)) ys _ (to_string-NoDash n) (to_string-ne-nil n) (sym h))
after_int (negsuc m) (negsuc n) xs ys h =
    first_part (digits (m + 2) (m + 1)) (digits (n + 2) (n + 1)) xs ys
      (digits-NoDash (m + 2) (m + 1)) (digits-NoDash (n + 2) (n + 1)) (cc)
