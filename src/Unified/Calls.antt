-- ===== src/Unified/Calls.antt =====
-- The operations of `NSBClient`, `NSBAppClient` and `NSBSimClient` of cpp/rabbit/src/NSBUnified.cpp that reach the database or read an answer.
use nsb_ci.Prelude.{
  ℤ, Bytes, Bool, List, [], ◌∷◌, Option, none, some, length, to_int, if◌then◌else◌,
}
use nsb_ci.Message.{
  Operation, OpCode, Body, MessageEntry, blank_entry, set_metadata, get_manifest, get_metadata,
  get_msg_key, is_message,
}
use nsb_ci.Daemon.{Os, Outcome, ok, thrown}
use nsb_ci.Db.{Redis, is_connected}
use nsb_ci.Client.{Channel, serialize_as_string}
use nsb_ci.Client.Setup.{SockName}
use nsb_ci.Unified.{Unified, Message, get_payload_unified, set_payload_unified}
use nsb_ci.Unified.Client.{
  base_message, config_unified, fetch_asks_unified, intro_unified, is_fetched, is_fine, is_init,
  is_received, on_channel, receive_asks_unified, wait_unified,
}

module _ {S : Type 0} (os : Os) (r : Redis S) where
  -- The answer to INIT: every failure throws. `redis_connect` is what the constructor of the connector
  -- does.
  unfoldable pub initialize_unified :
      (Channel → SockName)
      → (Bytes → ℤ → S → S)
      → Option Bytes
      → Unified
      → S
      → List Message × Outcome (Unified × S)
  unfolding intro_unified is_connected
  initialize_unified sockname redis_connect response c s = (
    on_channel os Channel.ctrl (record (base_message Operation.init OpCode.success c) {
      body = Body.intro (intro_unified sockname c);
    })
        ∷ [],
    elim response [
      | none ↦ thrown
      | some wire ↦ elim (os.parse wire) [
        | none ↦ thrown
        | some m ↦
            let cfg = config_unified m in
            let s' = redis_connect cfg.db_address cfg.db_port s in
            if is_init (get_manifest m).op
            then (if is_fine (get_manifest m).code
                then (if cfg.use_db
                    then (if is_connected r s'
                        then ok (
                          record c {
                            cfg = cfg;
                            db = some (record { client_id = c.id; plctr = 0 });
                          },
                          s',
                        )
                        else thrown)
                    else ok (record c { cfg = cfg }, s))
                else thrown)
            else thrown
      ]
    ],
  )

  -- What SEND and POST put on the SEND channel, with the key that they return.
  unfoldable pub put_unified :
      Operation → ℤ → Bytes → Bytes → Bytes → Unified → S → S × Unified × Message × Bytes
  unfolding set_payload_unified
  put_unified op tms src dest payload c s =
      let (s', c', m) =
        set_payload_unified r tms payload c s
          (set_metadata src dest (to_int (length payload)) (base_message op OpCode.message c)) in
      (
        s',
        c',
        record { channel = Channel.send; wire = serialize_as_string os m; dest = dest },
        if c.cfg.use_db then get_msg_key m else [],
      )

  unfoldable pub send_unified : ℤ → Bytes → Bytes → Unified → S → S × Unified × Message × Bytes
  unfolding put_unified
  send_unified tms dest payload c s = put_unified Operation.send tms c.id dest payload c s

  unfoldable pub post_unified :
      ℤ → Bytes → Bytes → Bytes → Unified → S → S × Unified × Message × Bytes
  unfolding put_unified
  post_unified tms src dest payload c s = put_unified Operation.post tms src dest payload c s

  -- The entry that an answer holds, where its operation is one of those expected.
  unfoldable pub read_unified : (Operation → Bool) → Option Bytes → Unified → S → S × MessageEntry
  unfolding get_payload_unified
  read_unified expected none c s = (s, blank_entry)
  read_unified expected (some wire) c s = elim (os.parse wire) [
    | none ↦ (s, blank_entry)
    | some m ↦
        let (s', payload) = get_payload_unified r c s m in
        let meta = get_metadata m in
        if expected (get_manifest m).op
        then (if is_message (get_manifest m).code
            then (
              s',
              record {
                source = meta.src_id;
                destination = meta.dest_id;
                payload_obj = payload;
                payload_size = meta.payload_size;
              },
            )
            else (s, blank_entry))
        else (s, blank_entry)
  ]

  -- `receive`, on what `recvMsg` gives within a timeout
  unfoldable pub receive_unified :
      Bytes → ℤ → (ℤ → Option Bytes) → Unified → S → List Message × S × MessageEntry
  unfolding receive_asks_unified read_unified
  receive_unified dest timeout recv c s =
      let (s', e) = read_unified is_received (recv (wait_unified c timeout)) c s in
      (receive_asks_unified os dest c, s', e)

  -- `fetch`
  unfoldable pub fetch_unified :
      Bytes → ℤ → (ℤ → Option Bytes) → Unified → S → List Message × S × MessageEntry
  unfolding fetch_asks_unified read_unified
  fetch_unified src timeout recv c s =
      let (s', e) = read_unified is_fetched (recv (wait_unified c timeout)) c s in
      (fetch_asks_unified os src c, s', e)
