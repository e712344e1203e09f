-- ===== src/Client/App.antt =====
-- `NSBAppClient::send` and `NSBAppClient::receive` of cpp/src/nsb_client.cc, with the overload of
-- `receive` in cpp/include/nsb_client.h.
use nsb_ci.Prelude.{ℤ, Bytes, List, [], ◌∷◌, Option, none, some, length, to_int}
use nsb_ci.Message.{
  Nsbm, Operation, Originator, OpCode, SystemMode, MessageEntry, blank_entry, set_metadata,
  set_dest_id,
}
use nsb_ci.Daemon.{Os, Outcome, ok, ◌>>=◌}
use nsb_ci.Db.{Redis}
use nsb_ci.Client.{
  Client, Channel, Sent, Done, serialize_as_string, deref, request, put_payload, read_answer,
}

-- The message of SEND and of POST before its payload.
abbrev pub outgoing : Operation → Originator → Bytes → Bytes → Bytes → Nsbm
outgoing op og src dest payload =
    set_metadata src dest (to_int (length payload)) (request op og OpCode.message)

module _ {S : Type 0} (os : Os) (r : Redis S) where
  -- At the time `tms`, which only the key of the payload reads. The result is the key.
  unfoldable pub send : ℤ → Bytes → Bytes → Client → S → Outcome (Done S Bytes)
  unfolding put_payload
  send tms dest payload c s = do
    og ← deref c.origin
    p ← put_payload r tms payload c s (outgoing Operation.send og c.client_id dest payload)
    ok (record {
      db = p.db;
      client = p.client;
      result = p.key;
      sent = record { channel = Channel.send; wire = serialize_as_string os p.message } ∷ [];
    })

  -- In PULL mode a request goes out first; a null `destId` stands for the client itself.
  unfoldable pub receive_request : Option Bytes → Client → Outcome (List Sent)
  receive_request dest c = elim c.cfg.system_mode [
    | SystemMode.pull ↦ do
      og ← deref c.origin
      let id : Bytes = elim dest [ none ↦ c.client_id | some d ↦ d ]
      ok (
          record {
            channel = Channel.recv;
            wire =
                serialize_as_string os
                  (set_dest_id id (request Operation.receive og OpCode.success));
          }
          ∷ [])
    | _ ↦ ok []
  ]

  unfoldable pub receive : Option Bytes → Bytes → Client → S → Outcome (Done S MessageEntry)
  unfolding receive_request read_answer
  receive dest response c s = do
    sent ← receive_request dest c
    (s', e) ← read_answer r os Operation.receive response c s
    ok (record { db = s'; client = c; result = e; sent = sent })

  -- `receive(int timeout)`
  unfoldable pub receive_self : Bytes → Client → S → Outcome (Done S MessageEntry)
  unfolding receive
  receive_self response c s = elim c.cfg.system_mode [
    | SystemMode.pull ↦ receive none response c s
    | SystemMode.push ↦ receive none response c s
    | SystemMode.other n ↦ ok (record { db = s; client = c; result = blank_entry; sent = [] })
  ]
