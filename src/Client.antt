-- ===== src/Client.antt =====
-- `NSBClient` of cpp/include/nsb_client.h and cpp/src/nsb_client.cc, on the socket interface: what it
-- keeps, and what its operations share. The text that `receiveMessage` returns is an argument of the
-- operation that waits for it; the empty text stands for a timeout or an error.
pub mod Setup
pub mod App
pub mod Sim
pub mod Relay
pub mod Outward
pub mod Next
pub mod Held
pub mod Homeward
pub mod Journey
pub mod Pushed
pub mod Configured
pub mod Keyed
pub mod KeyedJourney
pub mod Ready
use nsb_ci.Prelude.{ℤ, ◌+◌, Bytes, Bool, List, [], ◌∷◌, Option, none, some, if◌then◌else◌}
use nsb_ci.Message.{
  Nsbm, new_nsbm, Operation, Originator, OpCode, Config, MessageEntry, blank_entry, get_manifest,
  get_metadata, get_payload, get_msg_key, set_manifest, set_payload, set_msg_key,
}
use nsb_ci.Daemon.{Os, Outcome, ok, undefined, ◌>>=◌}
use nsb_ci.Db.{Redis, Connector, store, check_out}

-- `Comms::Channel`
pub data Channel : Type 0 where
  ctrl send recv : Channel

-- A message that `sendMessage` has put on a channel.
pub record Sent : Type 0 where
  pub channel : Channel
  pub wire : Bytes

-- `originIndicator` and `db` are null pointers until they are set.
pub record Client : Type 0 where
  pub client_id : Bytes
  pub origin : Option Originator
  pub cfg : Config
  pub db : Option Connector

-- `SerializeAsString`: the empty text where the message does not serialise.
abbrev pub serialize_as_string : Os → Nsbm → Bytes
serialize_as_string os m = elim (os.serialize m) [ none ↦ [] | some wire ↦ wire ]

-- `*p`
abbrev pub deref {ℓ} : {A : Type ℓ} → Option A → Outcome A
deref none = undefined
deref (some a) = ok a

-- A new message with the manifest that every request begins with.
abbrev pub request : Operation → Originator → OpCode → Nsbm
request op og code = set_manifest op og code new_nsbm

-- The client's own `msgGetPayloadObj`; nothing calls it.
unfoldable pub client_payload_obj : Client → Nsbm → Bytes
client_payload_obj c m = if c.cfg.use_db then get_msg_key m else get_payload m

-- What an operation that stores a payload leaves: the database, the client, the key and the message.
pub record Stored (S : Type 0) : Type 0 where
  pub db : S
  pub client : Client
  pub key : Bytes
  pub message : Nsbm

-- What a client has when an operation returns: the database, the client, the result, and what it sent.
pub record Done (S A : Type 0) : Type 0 where
  pub db : S
  pub client : Client
  pub result : A
  pub sent : List Sent

module _ {S : Type 0} (r : Redis S) where
  -- Put the payload, or the key under which it is stored, into an outgoing message.
  unfoldable pub put_payload : ℤ → Bytes → Client → S → Nsbm → Outcome (Stored S)
  unfolding store
  put_payload tms payload c s m =
      if c.cfg.use_db
      then (do
        db ← deref c.db
        let (s', db', key) = store r tms payload db s
        ok (record {
          db = s';
          client = record c { db = some db' };
          key = key;
          message = set_msg_key key m;
        }))
      else ok (record { db = s; client = c; key = []; message = set_payload payload m })

  -- The payload of an incoming message, taken out of the database where there is one.
  unfoldable pub take_payload : Client → S → Nsbm → Outcome (S × Bytes)
  unfolding check_out
  take_payload c s m =
      if c.cfg.use_db
      then (do db ← deref c.db; ok (check_out r (get_msg_key m) s))
      else ok (s, get_payload m)

  -- `MessageEntry` of an incoming message, with the full payload.
  unfoldable pub repack : Client → S → Nsbm → Outcome (S × MessageEntry)
  unfolding take_payload
  repack c s m = do
    (s', payload) ← take_payload c s m
    let meta = get_metadata m
    ok (
      s',
      record {
        source = meta.src_id;
        destination = meta.dest_id;
        payload_obj = payload;
        payload_size = meta.payload_size;
      },
    )

  -- An answer with the operation FORWARD, or the operation that was asked for, is repacked where its
  -- code is MESSAGE. Everything else gives the blank entry.
  abbrev pub answer_of :
      Operation → Operation → OpCode → Client → S → Nsbm → Outcome (S × MessageEntry)
  answer_of Operation.receive Operation.receive OpCode.message c s m = repack c s m
  answer_of Operation.fetch Operation.fetch OpCode.message c s m = repack c s m
  answer_of Operation.receive Operation.forward OpCode.message c s m = repack c s m
  answer_of Operation.fetch Operation.forward OpCode.message c s m = repack c s m
  answer_of _ _ _ c s m = ok (s, blank_entry)

  -- What `receive` and `fetch` make of the text that came back.
  unfoldable pub read_answer : Os → Operation → Bytes → Client → S → Outcome (S × MessageEntry)
  unfolding repack
  read_answer os op [] c s = ok (s, blank_entry)
  read_answer os op (b ∷ bs) c s = elim (os.parse (b ∷ bs)) [
    | none ↦ ok (s, blank_entry)
    | some m ↦ answer_of op (get_manifest m).op (get_manifest m).code c s m
  ]
