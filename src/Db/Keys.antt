-- ===== src/Db/Keys.antt =====
-- The keys of `generatePayloadId` in cpp/include/nsb.h, for one client and for several, on any clock.
use nsb_ci.Prelude.{
  ℕ, ℤ, zero, suc, ◌+◌, ◌%◌, ◌^◌, ◌<◌, pos, Bytes, to_string, ◌∷◌, ◌++◌, ◌≡◌, refl, ◌≢◌, sym, ◌∙◌,
  arith, append_assoc,
}
use nsb_ci.Db.{Connector, payload_id, next_plctr, generate_payload_id}
use nsb_ci.Db.Decimal.{to_string-injective, to_string-NoDash, last_part, after_int}

payload_id-parts :
    (t u : ℤ) (id other : Bytes) (m n : ℕ)
    → payload_id t id m ≡ payload_id u other n
    → (to_string t ++ 45 ∷ id ≡ to_string u ++ 45 ∷ other) × (to_string (pos m) ≡ to_string (pos n))
payload_id-parts t u id other m n h =
    last_part (to_string t ++ 45 ∷ id) (to_string u ++ 45 ∷ other) (to_string (pos m))
      (to_string (pos n)) (to_string-NoDash m) (to_string-NoDash n)
      (append_assoc (to_string t) (45 ∷ id) (45 ∷ to_string (pos m))
        ∙ h
        ∙ sym (append_assoc (to_string u) (45 ∷ other) (45 ∷ to_string (pos n))))

-- A key determines the client that made it and the counter, whatever the clock showed: no two clients
-- ever make the same key, though identifiers may hold dashes and digits.
pub payload_id-injective :
    (t u : ℤ) (id other : Bytes) (m n : ℕ)
    → payload_id t id m ≡ payload_id u other n
    → (id ≡ other) × (m ≡ n)
payload_id-injective t u id other m n h =
    let (front, back) = payload_id-parts t u id other m n h in
    (after_int t u id other front, to_string-injective m n back)

-- The connector after `k` payloads, and the key of the payload after those, on the clock `time`.
pub connector_after : (time : ℕ → ℤ) → ℕ → Connector → Connector
unfolding generate_payload_id
connector_after time zero c = c
connector_after time (suc k) c = (generate_payload_id (time k) (connector_after time k c)).0

pub key_at : (time : ℕ → ℤ) → ℕ → Connector → Bytes
unfolding connector_after
key_at time k c = (generate_payload_id (time k) (connector_after time k c)).1

id_after :
    (time : ℕ → ℤ) (k : ℕ) (c : Connector) → (connector_after time k c).client_id ≡ c.client_id
unfolding connector_after
id_after time zero c = refl
id_after time (suc k) c = id_after time k c

plctr_after :
    (time : ℕ → ℤ) (k : ℕ) (c : Connector)
    → next_plctr (connector_after time k c).plctr ≡ (c.plctr + k + 1) % 2 ^ 20
unfolding connector_after
plctr_after time zero c = omega arith
plctr_after time (suc k) c = omega (arith, plctr_after time k c)

counters_differ : (p i j : ℕ) → i < j → j < i + 2 ^ 20 → (p + i + 1) % 2 ^ 20 ≢ (p + j + 1) % 2 ^ 20
counters_differ p i j lt near e = omega arith

-- Two payloads of one client that are less than 2 ^ 20 apart have different keys, at any times.
pub key_at-ne :
    (time : ℕ → ℤ) (c : Connector) (i j : ℕ)
    → i < j
    → j < i + 2 ^ 20
    → key_at time i c ≢ key_at time j c
unfolding key_at
key_at-ne time c i j lt near e = counters_differ c.plctr i j lt near (
    sym (plctr_after time i c)
    ∙ (payload_id-injective (time i) (time j) _ _ _ _ e).1
    ∙ plctr_after time j c)
