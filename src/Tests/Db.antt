-- ===== src/Tests/Db.antt =====
-- The payload store's theorems at concrete data.
use nsb_ci.Prelude.{
  to_string, ◌≡◌, refl, ◌≢◌, ◌↔◌, pos, Bytes, bytes, str_eq, str_eq_refl, false, Option, none, some,
  [], ◌∷◌, if◌then◌else◌, if_true, All, arith,
}
use nsb_ci.Db.{Redis, Connector, c_str, store, check_out, payload_id}
use nsb_ci.Db.Keys.{key_at, key_at-ne}
use nsb_ci.Db.Payloads.{KeepsData, check_out-store}
use nsb_ci.Unified.{store_whole, check_out_whole}
use nsb_ci.Unified.Payloads.{check_out_whole-store_whole}

-- A server that never fails.
abbrev pub Table : Type 0
Table = Bytes → Option Bytes

abbrev pub put : Bytes → Option Bytes → Table → Table
put key v t x = if str_eq key x then v else t x

abbrev pub server : Redis Table
server = record {
  err = λ t. false;
  set = λ key v t. put key (some v) t;
  getdel = λ key t. (t key, put key none t);
  get = λ key t. (t key, t);
}

pub server-KeepsData : KeepsData server
server-KeepsData = record {
  holds = λ t. t;
  set_holds = λ key v t e. if_true (str_eq key key) _ _ (str_eq_refl key);
  set_others = λ key v other t e. ground arith;
  getdel_reply = λ key t e. refl;
  getdel_holds = λ key t e. if_true (str_eq key key) _ _ (str_eq_refl key);
}

abbrev pub alice_db : Connector
alice_db = record { client_id = bytes "alice"; plctr = 7 }

abbrev pub zeroed : Bytes
zeroed = 104 ∷ 0 ∷ 105 ∷ []

abbrev pub stored_at : Bytes
stored_at = payload_id (pos 5) (bytes "alice") 8

abbrev pub table : Table
table = put stored_at (some (104 ∷ [])) (λ x. none)

check_out-store_example : (((104 ∷ []) ≡ zeroed) ↔ All (λ b. b ≢ 0) zeroed) × (bytes "" ≡ [])
unfolding store check_out c_str to_string str_eq
check_out-store_example =
    check_out-store server server-KeepsData (pos 5) zeroed stored_at (104 ∷ []) [] alice_db
      (record alice_db { plctr = 8 }) (λ x. none) table table (put stored_at none table)
      (put stored_at none (put stored_at none table)) refl (λ e. cc) refl refl refl refl refl

key_at-ne_example : key_at (λ k. pos 5) 0 alice_db ≢ key_at (λ k. pos 5) 1 alice_db
key_at-ne_example = key_at-ne (λ k. pos 5) alice_db 0 1 (omega arith) (omega arith)

abbrev kept : Table
kept = put stored_at (some zeroed) (λ x. none)

check_out_whole-store_whole_example : (zeroed ≡ zeroed) × (put stored_at none kept stored_at ≡ none)
unfolding store_whole check_out_whole c_str to_string str_eq server-KeepsData
check_out_whole-store_whole_example =
    check_out_whole-store_whole server server-KeepsData (pos 5) zeroed stored_at zeroed alice_db
      (record alice_db { plctr = 8 }) (λ x. none) kept kept (put stored_at none kept) refl (λ e. cc)
      refl refl refl refl
