-- ===== src/Db/Payloads.antt =====
-- What `store` and `checkOut` of cpp/src/nsb.cc give together, on the documented behaviour of the
-- commands SET and GETDEL.
use nsb_ci.Prelude.{
  ℤ, ◌≡◌, refl, ◌≢◌, ◌↔◌, Bytes, str_eq, false, Option, none, some, [], ◌∷◌, Bool-cases, inl, inr,
  arith, All, ◌∙◌, sym, subst,
}
use nsb_ci.Db.{Redis, Connector, c_str, store, check_out, is_connected, generate_payload_id}

-- `holds s key` is what the server keeps under `key`. A command that failed promises nothing.
pub record KeepsData {S : Type 0} (r : Redis S) : Type 0 where
  pub holds : S → Bytes → Option Bytes
  pub set_holds :
      (key value : Bytes) (s : S)
      → r.err (r.set key value s) ≡ false
      → holds (r.set key value s) key ≡ some value
  pub set_others :
      (key value other : Bytes) (s : S)
      → str_eq key other ≡ false
      → holds (r.set key value s) other ≡ holds s other
  pub getdel_reply :
      (key : Bytes) (s : S) → r.err (r.getdel key s).1 ≡ false → (r.getdel key s).0 ≡ holds s key
  pub getdel_holds :
      (key : Bytes) (s : S) → r.err (r.getdel key s).1 ≡ false → holds (r.getdel key s).1 key ≡ none

-- `c_str` is the whole text just where it has no zero byte.
pub c_str-whole_iff : (v : Bytes) → (c_str v ≡ v) ↔ All (λ b. b ≢ 0) v
unfolding c_str
c_str-whole_iff [] = ((λ e. tt), (λ h. refl))
c_str-whole_iff (b ∷ bs) = ground (arith, c_str-whole_iff bs)

module _ {S : Type 0} (r : Redis S) (laws : KeepsData r) where
  -- `held` is the text that the server keeps under the key.
  abbrev pub Held : S → Bytes → Bytes → Type 0
  Held s key held = (laws.holds s (c_str key) ≡ some held) × (r.err s ≡ false)

  -- A `store` that returns a key has left the value, up to its first zero byte, under that key.
  pub store-Held :
      (tms : ℤ) (value key : Bytes) (c c' : Connector) (s s' : S)
      → store r tms value c s ≡ (s', c', key)
      → key ≢ []
      → Held s' key (c_str value)
  unfolding store is_connected
  store-Held tms value key c c' s s' e ne =
      let key' = c_str (generate_payload_id tms c).1 in
      let kept = laws.set_holds key' (c_str value) s in
      elim (Bool-cases (r.err s)) [
        | inl dead ↦ ground arith
        | inr live ↦ elim (Bool-cases (r.err (r.set key' (c_str value) s))) [
          | inl failed ↦ ground arith
          | inr fine ↦ ground (arith, kept fine)
        ]
      ]

  -- A `checkOut` of a key that is held returns the text and removes it.
  pub check_out-Held :
      (key held v : Bytes) (s s' : S)
      → Held s key held
      → check_out r key s ≡ (s', v)
      → r.err s' ≡ false
      → (v ≡ held) × (laws.holds s' (c_str key) ≡ none)
  unfolding check_out is_connected
  check_out-Held key held v s s' h e fine = elim (Bool-cases (r.err (r.getdel (c_str key) s).1)) [
    | inl failed ↦ ground arith
    | inr good ↦
        ground (arith, laws.getdel_reply (c_str key) s good, laws.getdel_holds (c_str key) s good)
  ]

  check_out-gone :
      (key w : Bytes) (s u : S)
      → laws.holds s (c_str key) ≡ none
      → check_out r key s ≡ (u, w)
      → w ≡ []
  unfolding check_out is_connected
  check_out-gone key w s u h e = elim (Bool-cases (r.err (r.getdel (c_str key) s).1)) [
    | inl failed ↦ ground arith
    | inr good ↦ ground (arith, laws.getdel_reply (c_str key) s good)
  ]

  -- A value that `store` has put away and that nobody has touched since, in whatever state `t` the
  -- server then is, is what `checkOut` returns, the whole of it, just where the value has no zero byte.
  -- A second `checkOut` returns the empty text. The connection has no error all the way.
  pub check_out-store :
      (tms : ℤ) (value key v w : Bytes) (c c' : Connector) (s s' t t' u : S)
      → store r tms value c s ≡ (s', c', key)
      → key ≢ []
      → laws.holds t (c_str key) ≡ laws.holds s' (c_str key)
      → r.err t ≡ false
      → check_out r key t ≡ (t', v)
      → r.err t' ≡ false
      → check_out r key t' ≡ (u, w)
      → ((v ≡ value) ↔ All (λ b. b ≢ 0) value) × (w ≡ [])
  check_out-store tms value key v w c c' s s' t t' u stored ne untouched live out live' again =
      let (kept, fine) = store-Held tms value key c c' s s' stored ne in
      let (same, gone) =
        check_out-Held key (c_str value) v t t' (untouched ∙ kept, live) out live' in
      (
        subst (λ x. (x ≡ value) ↔ All (λ b. b ≢ 0) value) (sym same) (c_str-whole_iff value),
        check_out-gone key w t' u gone again,
      )
