-- ===== src/Client/Sim.antt =====
-- `NSBSimClient::fetch` and `NSBSimClient::post` of cpp/src/nsb_client.cc, with the overload of
-- `fetch` in cpp/include/nsb_client.h.
use nsb_ci.Prelude.{ℤ, Bytes, List, [], ◌∷◌, Option, none, some}
use nsb_ci.Message.{
  Nsbm, Operation, Originator, OpCode, SystemMode, SimulatorMode, MessageEntry, blank_entry,
  get_metadata, set_src_id,
}
use nsb_ci.Daemon.{Os, Outcome, ok, ◌>>=◌}
use nsb_ci.Db.{Redis}
use nsb_ci.Client.{
  Client, Channel, Sent, Done, serialize_as_string, deref, request, put_payload, read_answer,
}
use nsb_ci.Client.App.{outgoing}

-- `mutable_metadata()` has created the metadata, whether or not the source is set.
abbrev pub with_metadata : Nsbm → Nsbm
with_metadata m = record m { metadata = some (get_metadata m) }

-- The request of FETCH: a system-wide simulator may name a source, one per node names itself.
unfoldable pub fetch_message : Originator → SimulatorMode → Bytes → Option Bytes → Nsbm
fetch_message og SimulatorMode.system_wide id none =
    with_metadata (request Operation.fetch og OpCode.success)
fetch_message og SimulatorMode.system_wide id (some src) =
    set_src_id src (request Operation.fetch og OpCode.success)
fetch_message og SimulatorMode.per_node id src =
    set_src_id id (request Operation.fetch og OpCode.success)
fetch_message og (SimulatorMode.other n) id src =
    with_metadata (request Operation.fetch og OpCode.success)

module _ {S : Type 0} (os : Os) (r : Redis S) where
  unfoldable pub fetch_request : Option Bytes → Client → Outcome (List Sent)
  unfolding fetch_message
  fetch_request src c = elim c.cfg.system_mode [
    | SystemMode.pull ↦ do
      og ← deref c.origin
      ok (
          record {
            channel = Channel.recv;
            wire = serialize_as_string os (fetch_message og c.cfg.simulator_mode c.client_id src);
          }
          ∷ [])
    | _ ↦ ok []
  ]

  unfoldable pub fetch : Option Bytes → Bytes → Client → S → Outcome (Done S MessageEntry)
  unfolding fetch_request read_answer
  fetch src response c s = do
    sent ← fetch_request src c
    (s', e) ← read_answer r os Operation.fetch response c s
    ok (record { db = s'; client = c; result = e; sent = sent })

  -- `fetch(int timeout)`
  unfoldable pub fetch_any : Bytes → Client → S → Outcome (Done S MessageEntry)
  unfolding fetch
  fetch_any response c s = elim c.cfg.system_mode [
    | SystemMode.pull ↦ fetch none response c s
    | SystemMode.push ↦ fetch none response c s
    | SystemMode.other n ↦ ok (record { db = s; client = c; result = blank_entry; sent = [] })
  ]

  unfoldable pub post : ℤ → Bytes → Bytes → Bytes → Client → S → Outcome (Done S Bytes)
  unfolding put_payload
  post tms src dest payload c s = do
    og ← deref c.origin
    p ← put_payload r tms payload c s (outgoing Operation.post og src dest payload)
    ok (record {
      db = p.db;
      client = p.client;
      result = p.key;
      sent = record { channel = Channel.send; wire = serialize_as_string os p.message } ∷ [];
    })
