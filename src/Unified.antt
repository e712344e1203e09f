-- ===== src/Unified.antt =====
-- The unified client of cpp/rabbit/include/NSBUnified.hpp and cpp/rabbit/src/NSBUnified.cpp: what it
-- keeps, and its connector to the database, which stores a payload with its length.
pub mod Client
pub mod Calls
pub mod Fetching
pub mod Payloads
pub mod Backends
pub mod Closing
pub mod RabbitBackend
pub mod Equivalence
pub mod Sockets
use nsb_ci.Prelude.{ℤ, Bytes, Bool, List, [], ◌∷◌, Option, none, some, if◌then◌else◌}
use nsb_ci.Message.{Nsbm, Originator, Config, get_payload, get_msg_key, set_payload, set_msg_key}
use nsb_ci.Db.{Redis, Connector, c_str, generate_payload_id, is_connected, or_empty}
use nsb_ci.Client.{Channel}

pub data Backend : Type 0 where
  socket_backend rabbit_backend : Backend

-- `comms_` is set until `exit`.
pub record Unified : Type 0 where
  pub id : Bytes
  pub host : Bytes
  pub backend : Backend
  pub origin : Originator
  pub cfg : Config
  pub db : Option Connector
  pub is_open : Bool

-- What `sendMsg` is called with.
pub record Message : Type 0 where
  pub channel : Channel
  pub wire : Bytes
  pub dest : Bytes

module _ {S : Type 0} (r : Redis S) where
  -- `RedisConnector::store` with "%b".
  unfoldable pub store_whole : ℤ → Bytes → Connector → S → S × Connector × Bytes
  unfolding is_connected generate_payload_id c_str
  store_whole tms value c s =
      let (c', key) = generate_payload_id tms c in
      let s' = r.set (c_str key) value s in
      if is_connected r s then (if r.err s' then (s', c', []) else (s', c', key)) else (s, c, [])

  -- `RedisConnector::checkOut`; a reply is null just where the context has an error.
  unfoldable pub check_out_whole : Bytes → S → S × Bytes
  unfolding is_connected c_str
  check_out_whole key s =
      let (reply, s') = r.getdel (c_str key) s in
      if is_connected r s then (if r.err s' then (s', []) else (s', or_empty reply)) else (s, [])

  -- `peek`; here a null reply reads as the empty text, and `context->err` is not looked at.
  unfoldable pub peek_whole : Bytes → S → S × Bytes
  unfolding is_connected c_str
  peek_whole key s =
      let (reply, s') = r.get (c_str key) s in
      if is_connected r s then (if r.err s' then (s', []) else (s', or_empty reply)) else (s, [])

  -- `getPayload`
  unfoldable pub get_payload_unified : Unified → S → Nsbm → S × Bytes
  unfolding check_out_whole
  get_payload_unified c s m =
      let plain : S × Bytes = (s, get_payload m) in
      if c.cfg.use_db
      then elim c.db [ none ↦ plain | some db ↦ check_out_whole (get_msg_key m) s ]
      else plain

  -- `setPayload`
  unfoldable pub set_payload_unified : ℤ → Bytes → Unified → S → Nsbm → S × Unified × Nsbm
  unfolding store_whole
  set_payload_unified tms payload c s m =
      let plain : S × Unified × Nsbm = (s, c, set_payload payload m) in
      if c.cfg.use_db
      then elim c.db [
        | none ↦ plain
        | some db ↦
            let (s', db', key) = store_whole tms payload db s in
            (s', record c { db = some db' }, set_msg_key key m)
      ]
      else plain
