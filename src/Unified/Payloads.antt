-- ===== src/Unified/Payloads.antt =====
-- What `store` and `checkOut` of cpp/rabbit/src/NSBUnified.cpp give together.
use nsb_ci.Prelude.{ℤ, Bytes, false, [], some, none, ◌≡◌, ◌≢◌, arith, Bool-cases, inl, inr}
use nsb_ci.Db.{Redis, Connector, c_str, is_connected, generate_payload_id}
use nsb_ci.Db.Payloads.{KeepsData}
use nsb_ci.Unified.{store_whole, check_out_whole}

module _ {S : Type 0} (r : Redis S) (laws : KeepsData r) where
  store_whole-holds :
      (tms : ℤ) (value key : Bytes) (c c' : Connector) (s s' : S)
      → store_whole r tms value c s ≡ (s', c', key)
      → key ≢ []
      → (laws.holds s' (c_str key) ≡ some value) × (r.err s' ≡ false)
  unfolding store_whole is_connected
  store_whole-holds tms value key c c' s s' e ne =
      let key' = c_str (generate_payload_id tms c).1 in
      let kept = laws.set_holds key' value s in
      elim (Bool-cases (r.err s)) [
        | inl dead ↦ ground arith
        | inr live ↦ elim (Bool-cases (r.err (r.set key' value s))) [
          | inl failed ↦ ground arith
          | inr fine ↦ ground (arith, kept fine)
        ]
      ]

  -- A value that `store` has put away under a key that is not empty, and that nobody has touched since,
  -- in whatever state `t` the server then is, is what `checkOut` returns, byte for byte, and it is gone
  -- from the server then. The server keeps what it is given, and the connection has no error before
  -- and after `checkOut`.
  pub check_out_whole-store_whole :
      (tms : ℤ) (value key v : Bytes) (c c' : Connector) (s s' t t' : S)
      → store_whole r tms value c s ≡ (s', c', key)
      → key ≢ []
      → laws.holds t (c_str key) ≡ laws.holds s' (c_str key)
      → r.err t ≡ false
      → check_out_whole r key t ≡ (t', v)
      → r.err t' ≡ false
      → (v ≡ value) × (laws.holds t' (c_str key) ≡ none)
  unfolding check_out_whole is_connected
  check_out_whole-store_whole tms value key v c c' s s' t t' stored ne untouched live out live' =
      let kept = store_whole-holds tms value key c c' s s' stored ne in
      elim (Bool-cases (r.err (r.getdel (c_str key) t).1)) [
        | inl failed ↦ ground arith
        | inr good ↦
            ground
              (arith, laws.getdel_reply (c_str key) t good, laws.getdel_holds (c_str key) t good)
      ]
