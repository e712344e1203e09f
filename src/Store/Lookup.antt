-- ===== src/Store/Lookup.antt =====
-- `std::map<std::string, V>`, as used by `sim_client_lookup`, `app_client_lookup` and `fd_lookup` of
-- cpp/include/nsb_daemon.h: the entries in the order of their keys, each key once.
use nsb_ci.Prelude.{
  Bytes, true, List, [], ◌∷◌, Option, none, some, ◌≡◌, refl, arith, str_eq, str_lt, str_eq_iff,
  str_lt_trans, str_lt_irrefl, str_lt_total, if◌then◌else◌, is_some,
}

abbrev pub Lookup {ℓ} : Type ℓ → Type ℓ
Lookup V = List (Bytes × V)

module _ {ℓ} {V : Type ℓ} where
  -- `find(k)`, `none` for `end()`
  unfoldable pub find : Bytes → Lookup V → Option V
  find k [] = none
  find k ((j, v) ∷ m) = if str_eq j k then some v else find k m

  -- `emplace(k, v)`: nothing changes where `k` is a key already.
  unfoldable pub emplace : Bytes → V → Lookup V → Lookup V
  emplace k v [] = (k, v) ∷ []
  emplace k v ((j, w) ∷ m) =
      if str_eq j k
      then (j, w) ∷ m
      else if str_lt k j
      then (k, v) ∷ (j, w) ∷ m
      else (j, w) ∷ emplace k v m

  -- `begin()->second`, `none` where the map is empty
  unfoldable pub first : Lookup V → Option V
  first [] = none
  first ((j, v) ∷ m) = some v

  -- Every key lies above `k`.
  abbrev pub Above : Bytes → Lookup V → Type 0
  Above k [] = Unit {0}
  Above k ((j, v) ∷ m) = (str_lt k j ≡ true) × Above k m

  -- The invariant of the container: the keys rise strictly.
  abbrev pub IsSorted : Lookup V → Type 0
  IsSorted [] = Unit {0}
  IsSorted ((j, v) ∷ m) = Above j m × IsSorted m

  Above-trans : (k j : Bytes) (m : Lookup V) → str_lt k j ≡ true → Above j m → Above k m
  Above-trans k j [] h a = tt
  Above-trans k j ((i, v) ∷ m) h a = (str_lt_trans k j i h a.0, Above-trans k j m h a.1)

  Above-emplace :
      (i k : Bytes) (v : V) (m : Lookup V) → str_lt i k ≡ true → Above i m → Above i (emplace k v m)
  unfolding emplace
  Above-emplace i k v [] h a = (h, tt)
  Above-emplace i k v ((j, w) ∷ m) h a = ground (arith, Above-emplace i k v m h a.1)

  pub emplace-IsSorted : (k : Bytes) (v : V) (m : Lookup V) → IsSorted m → IsSorted (emplace k v m)
  unfolding emplace
  emplace-IsSorted k v [] s = (tt, tt)
  emplace-IsSorted k v ((j, w) ∷ m) s = ground (
    arith,
    emplace-IsSorted k v m s.1,
    Above-trans k j m,
    Above-emplace j k v m,
    str_lt_total k j,
    str_lt_total j k,
    str_eq_iff j k,
    str_eq_iff k j,
  )

  find-Above : (k : Bytes) (m : Lookup V) → Above k m → find k m ≡ none
  unfolding find
  find-Above k [] a = refl
  find-Above k ((j, v) ∷ m) a = ground (arith, find-Above k m a.1, str_eq_iff j k, str_lt_irrefl k)

  -- What `emplace` does to every later lookup: the first entry for a key stays.
  pub find-emplace :
      (k j : Bytes) (v : V) (m : Lookup V)
      → IsSorted m
      → find j (emplace k v m)
        ≡ (if is_some (find j m) then find j m else if str_eq k j then some v else none)
  unfolding find emplace
  find-emplace k j v [] s = ground arith
  find-emplace k j v ((i, w) ∷ m) s = ground (
    arith,
    find-emplace k j v m s.1,
    str_eq_iff i k,
    str_eq_iff i j,
    str_eq_iff k j,
    find-Above k m,
    Above-trans k i m,
    str_lt_irrefl k,
  )
