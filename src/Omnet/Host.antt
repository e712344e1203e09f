-- ===== src/Omnet/Host.antt =====
-- `NSBHost` of examples/omnet/nsb_omnet_basic/NSBHost.cc, a host of a network in plain OMNeT++. The
-- texts of a message are read up to their first zero byte, as `setSrcId` and the like take them.
use nsb_ci.Prelude.{ℕ, ℤ, pos, negsuc, ◌+◌, ltb, Bytes, List, [], ◌∷◌, ◌++◌, if◌then◌else◌, str_eq}
use nsb_ci.Message.{MessageEntry, entry_exists}
use nsb_ci.Daemon.{Os, Outcome, ok, thrown, ◌>>=◌}
use nsb_ci.Db.{Redis, c_str}
use nsb_ci.Client.{Client, Sent, Done}
use nsb_ci.Client.Sim.{fetch_any, post}
use nsb_ci.Hosts.{host_index}

-- `NSBMessage`
pub record NsbMessage : Type 0 where
  pub src_id : Bytes
  pub dest_id : Bytes
  pub payload : Bytes

-- The gate `out[i]` that a message leaves by.
pub record Leaving : Type 0 where
  pub gate : ℕ
  pub message : NsbMessage

-- `timer` is when the host sends next.
pub record Host (S : Type 0) : Type 0 where
  pub host_id : Bytes
  pub out_gates : ℕ
  pub client : Client
  pub db : S
  pub send_interval : ℕ
  pub timer : ℕ
  pub to_daemon : List Sent
  pub left : List Leaving

unfoldable pub message_of : MessageEntry → NsbMessage
message_of e = record {
  src_id = c_str e.source;
  dest_id = c_str e.destination;
  payload = c_str e.payload_obj;
}

module _ {S : Type 0} where
  -- `send(msg, "out", i)`: a gate that the host has not throws.
  unfoldable pub send_out : ℤ → NsbMessage → Host S → Outcome (Host S)
  send_out (negsuc i) m h = thrown
  send_out (pos i) m h =
      if ltb i h.out_gates
      then ok (record h { left = h.left ++ record { gate = i; message = m } ∷ [] })
      else thrown

  abbrev pub did : {A : Type 0} → Done S A → Host S → Host S
  did d h = record h { client = d.client; db = d.db; to_daemon = h.to_daemon ++ d.sent }

  -- `initialize`, with the client that it makes
  abbrev pub new_host : Bytes → ℕ → ℕ → ℕ → Client → S → Host S
  new_host id gates interval now client db = record {
    host_id = id;
    out_gates = gates;
    client = client;
    db = db;
    send_interval = interval;
    timer = now + interval;
    to_daemon = [];
    left = [];
  }

module _ {S : Type 0} (os : Os) (r : Redis S) where
  -- `sendPacket`
  unfoldable pub send_packet_host : Bytes → Host S → Outcome (Host S)
  send_packet_host response h = do
    d ← fetch_any os r response h.client h.db
    if entry_exists d.result
        then (do
          i ← host_index (c_str d.result.destination)
          send_out i (message_of d.result) (did d h))
        else ok (did d h)

  -- `processPacket`: the index is read first, also where the host is the destination.
  unfoldable pub process_packet_host : ℤ → NsbMessage → Host S → Outcome (Host S)
  process_packet_host tms m h = do
    i ← host_index m.dest_id
    if str_eq m.dest_id h.host_id
        then (do d ← post os r tms m.src_id m.dest_id m.payload h.client h.db; ok (did d h))
        else send_out i m h

  -- `handleMessage` on its timer
  unfoldable pub handle_timer_host : ℕ → Bytes → Host S → Outcome (Host S)
  handle_timer_host now response h = do
    h' ← send_packet_host response h
    ok (record h' { timer = now + h'.send_interval })
