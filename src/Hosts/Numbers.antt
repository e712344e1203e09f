-- ===== src/Hosts/Numbers.antt =====
-- `stoi` and the names of hosts, on the texts that `to_string` makes.
use nsb_ci.Prelude.{
  ℕ, zero, suc, ◌+◌, ◌-◌, ◌*◌, ◌/◌, ◌%◌, ◌<◌, ◌^◌, ltb, pos, Bytes, to_string, digits, true, [],
  ◌∷◌, ◌++◌, ◌≡◌, refl, ◌≢◌, arith, ◌∙◌, ap, All, drop, Bool-cases, inl, inr,
}
use nsb_ci.Daemon.{ok}
use nsb_ci.Db.Decimal.{to_string-injective, value_from, value-digits, to_string-ne-nil}
use nsb_ci.Hosts.{
  is_digit, skip_space, leading, unsigned, signed, stoi, host_index, is_host, host_name,
}

abbrev pub AreDigits : Bytes → Type 0
AreDigits = All (λ c. is_digit c ≡ true)

AreDigits-append : (s t : Bytes) → AreDigits s → AreDigits t → AreDigits (s ++ t)
AreDigits-append [] t p q = q
AreDigits-append (c ∷ s) t p q = (p.0, AreDigits-append s t p.1 q)

digits-AreDigits : (f n : ℕ) → AreDigits (digits f n)
unfolding digits
digits-AreDigits zero n = tt
digits-AreDigits (suc f) n = elim (Bool-cases (ltb n 10)) [
  | inl small ↦ rw small (ground arith, tt)
  | inr large ↦ rw large (
      AreDigits-append (digits f (n / 10)) ((48 + n % 10) ∷ []) (digits-AreDigits f (n / 10))
        (ground arith, tt))
]

pub to_string-AreDigits : (n : ℕ) → AreDigits (to_string (pos n))
unfolding to_string
to_string-AreDigits n = digits-AreDigits (n + 1) n

leading_lem : (s : Bytes) (acc : ℕ) → AreDigits s → leading acc s ≡ value_from acc s
unfolding leading value_from
leading_lem [] acc h = refl
leading_lem (c ∷ s) acc h = rw (h.0) (leading_lem s (acc * 10 + (c - 48)) h.1)

-- A text of digits is read as the number that it stands for.
digits_read :
    (s : Bytes)
    → s ≢ []
    → AreDigits s
    → value_from 0 s < 2 ^ 31
    → stoi s ≡ ok (pos (value_from 0 s))
unfolding stoi skip_space signed unsigned
digits_read [] n h small = absurd (n refl)
digits_read (c ∷ s) n h small = ground (arith, leading_lem (c ∷ s) 0 h, h.0)

pub stoi-to_string : (n : ℕ) → n < 2 ^ 31 → stoi (to_string (pos n)) ≡ ok (pos n)
unfolding to_string
stoi-to_string n h =
    let v = value-digits (n + 1) n (omega arith) in
    digits_read (to_string (pos n)) (to_string-ne-nil n) (digits-AreDigits (n + 1) n)
      (omega (arith, v))
    ∙ ap (λ k. ok (pos k)) v

pub host_index-host_name : (i : ℕ) → i < 2 ^ 31 → host_index (host_name i) ≡ ok (pos i)
unfolding host_index
host_index-host_name i h = ground (arith, stoi-to_string i h)

pub host_name-is_host : (i : ℕ) → is_host (host_name i) ≡ true
unfolding is_host
host_name-is_host i = refl

pub host_name-injective : (i j : ℕ) → host_name i ≡ host_name j → i ≡ j
host_name-injective i j e = to_string-injective i j (ap (drop 4) e)
