-- ===== src/Hosts.antt =====
-- Names "host0", "host1", … as the programs under examples take them apart, with what they use of the
-- standard library: `substr` and `stoi`, whose exceptions are all caught in the same places.
pub mod Numbers
use nsb_ci.Prelude.{
  ℕ, zero, suc, ◌+◌, ◌-◌, ◌*◌, ◌≤◌, ◌<◌, ◌^◌, leb, ltb, ◌==◌, ℤ, pos, negsuc, Bytes, bytes,
  to_string, Bool, true, false, ◌&&◌, ◌||◌, List, [], ◌∷◌, ◌++◌, Option, none, some, if◌then◌else◌,
  ◌≡◌, refl, length, take, drop, str_eq, arith, ◌∙◌, ap,
}
use nsb_ci.Daemon.{Outcome, ok, thrown, ◌>>=◌}

-- `s.substr(pos)`
unfoldable pub substr : ℕ → Bytes → Outcome Bytes
substr n s = if leb n (length s) then ok (drop n s) else thrown

-- `isspace` and `isdigit` in the C locale
abbrev pub is_space : ℕ → Bool
is_space c = c == 32 || (leb 9 c && leb c 13)

abbrev pub is_digit : ℕ → Bool
is_digit c = leb 48 c && leb c 57

unfoldable pub skip_space : Bytes → Bytes
skip_space [] = []
skip_space (c ∷ s) = let rest = skip_space s in if is_space c then rest else c ∷ s

-- The digits at the front, after those that make `acc`.
unfoldable pub leading : ℕ → Bytes → ℕ
leading acc [] = acc
leading acc (c ∷ s) = let more = leading (acc * 10 + (c - 48)) s in if is_digit c then more else acc

unfoldable pub unsigned : Bytes → Option ℕ
unfolding leading
unsigned [] = none
unsigned (c ∷ s) = if is_digit c then some (leading 0 (c ∷ s)) else none

-- A number that is no `int` makes `stoi` throw.
abbrev pub positive : Option ℕ → Outcome ℤ
positive none = thrown
positive (some n) = if ltb n (2 ^ 31) then ok (pos n) else thrown

abbrev pub negative : Option ℕ → Outcome ℤ
negative none = thrown
negative (some n) =
    if n == 0 then ok (pos 0) else if leb n (2 ^ 31) then ok (negsuc (n - 1)) else thrown

-- `std::stoi`: 45 and 43 are the signs.
unfoldable pub signed : Bytes → Outcome ℤ
unfolding unsigned
signed [] = thrown
signed (c ∷ s) =
    if c == 45
    then negative (unsigned s)
    else if c == 43
    then positive (unsigned s)
    else positive (unsigned (c ∷ s))

unfoldable pub stoi : Bytes → Outcome ℤ
unfolding skip_space signed
stoi s = signed (skip_space s)

-- `std::stoi(id.substr(4))`
unfoldable pub host_index : Bytes → Outcome ℤ
unfolding substr
host_index id = substr 4 id >>= stoi

-- `id.substr(0, 4) == "host"`
unfoldable pub is_host : Bytes → Bool
unfolding str_eq
is_host id = str_eq (take 4 id) (bytes "host")

-- `"host" + std::to_string(i)`
abbrev pub host_name : ℕ → Bytes
host_name i = bytes "host" ++ to_string (pos i)
