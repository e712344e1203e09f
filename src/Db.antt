-- ===== src/Db.antt =====
-- `DBConnector` and `RedisConnector` of cpp/include/nsb.h and cpp/src/nsb.cc. The Redis server, with
-- the connection to it, is a parameter: what its commands answer and whether they failed.
pub mod Decimal
pub mod Keys
pub mod Payloads
pub mod Context
use nsb_ci.Prelude.{
  ℕ, ℤ, ◌+◌, ◌%◌, ◌^◌, pos, Bytes, bytes, to_string, Bool, true, false, not, List, [], ◌∷◌, ◌++◌,
  Option, none, some, ◌==◌, if◌then◌else◌,
}

-- hiredis, over a state that holds the server's data and the context's error flag.
pub record Redis (S : Type 0) : Type 0 where
  -- `context->err`
  pub err : S → Bool
  -- "SET %s %s"
  pub set : Bytes → Bytes → S → S
  -- "GETDEL %s" and "GET %s": the text of the reply, `none` for nil
  pub getdel : Bytes → S → Option Bytes × S
  pub get : Bytes → S → Option Bytes × S

-- `c_str()`, as `%s` reads it: up to the first zero byte.
unfoldable pub c_str : Bytes → Bytes
c_str [] = []
c_str (b ∷ bs) = let rest = c_str bs in if b == 0 then [] else b ∷ rest

pub record Connector : Type 0 where
  pub client_id : Bytes
  pub plctr : ℕ

-- The counter after the next payload: 20 bits.
abbrev pub next_plctr : ℕ → ℕ
next_plctr n = (n + 1) % 2 ^ 20

abbrev pub payload_id : ℤ → Bytes → ℕ → Bytes
payload_id tms id n = to_string tms ++ (45 ∷ (id ++ (45 ∷ to_string (pos n))))

-- `generatePayloadId`, at the time `tms`.
unfoldable pub generate_payload_id : ℤ → Connector → Connector × Bytes
generate_payload_id tms c =
    let n = next_plctr c.plctr in (record c { plctr = n }, payload_id tms c.client_id n)

-- The text of a reply; nil reads as the empty text.
abbrev pub or_empty : Option Bytes → Bytes
or_empty none = []
or_empty (some v) = v

module _ {S : Type 0} (r : Redis S) where
  -- `isConnected`, for the context that the constructor made
  unfoldable pub is_connected : S → Bool
  is_connected s = not (r.err s)

  -- The state, the connector and the key of a call of `store`; the empty key where it failed.
  unfoldable pub store : ℤ → Bytes → Connector → S → S × Connector × Bytes
  unfolding is_connected generate_payload_id c_str
  store tms value c s =
      let (c', key) = generate_payload_id tms c in
      let s' = r.set (c_str key) (c_str value) s in
      if is_connected s then (if r.err s' then (s', c', []) else (s', c', key)) else (s, c, [])

  unfoldable pub check_out : Bytes → S → S × Bytes
  unfolding is_connected c_str
  check_out key s =
      let (reply, s') = r.getdel (c_str key) s in
      if is_connected s then (if r.err s' then (s', []) else (s', or_empty reply)) else (s, [])

  -- `peek` reads its reply without a look at `context->err`: where the command failed the reply is
  -- null, and its type is read all the same. `none` is that fault.
  unfoldable pub peek : Bytes → S → Option (S × Bytes)
  unfolding is_connected c_str
  peek key s =
      let (reply, s') = r.get (c_str key) s in
      if is_connected s
      then (if r.err s' then none else some (s', or_empty reply))
      else some (s, [])
