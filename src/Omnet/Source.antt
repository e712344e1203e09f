-- ===== src/Omnet/Source.antt =====
-- `nsbBasicApp` of examples/omnet/nsb_omnet_inet/INETAppFiles/nsbBasicApp.cc: the application that takes
-- messages from the daemon into the simulated network. Times are clock ticks, and there is no stop time
-- where the parameter is negative. What a timer finds when it fires is an argument.
use nsb_ci.Prelude.{
  max, ℕ, ◌+◌, ltb, ◌==◌, ℤ, Bytes, Bool, true, false, ◌&&◌, ◌||◌, List, [], ◌∷◌, ◌++◌, Option,
  none, some, is_empty, if◌then◌else◌,
}
use nsb_ci.Message.{MessageEntry, entry_exists}
use nsb_ci.Daemon.{Os, Outcome, ok, thrown, ◌>>=◌}
use nsb_ci.Db.{Redis}
use nsb_ci.Client.{Client, Sent, Done}
use nsb_ci.Client.Sim.{fetch_any}
use nsb_ci.Omnet.Frame.{write_frame}

-- The kinds of `selfMsg`.
pub data Kind : Type 0 where
  start send stop : Kind

-- `timer` is what `selfMsg` is scheduled as, and when.
pub record App : Type 0 where
  pub num_sent : ℕ
  pub num_received : ℕ
  pub start_time : ℕ
  pub stop_time : Option ℕ
  pub dest_addresses : List Bytes
  pub timer : Option (Kind × ℕ)
  pub socket_open : Bool

-- A packet that the socket was given.
pub record Packet : Type 0 where
  pub bytes : Bytes
  pub address : Bytes
  pub port : ℤ

-- The application with its client of the daemon, the requests it made there and the packets it sent.
pub record Node (S : Type 0) : Type 0 where
  pub app : App
  pub client : Client
  pub db : S
  pub asked : List Sent
  pub packets : List Packet

-- What a timer finds: the text that comes back from the daemon, and the next `sendInterval`.
pub record Firing : Type 0 where
  pub response : Bytes
  pub interval : ℕ

-- `initialize`, in its first stage.
unfoldable pub initialize_app : ℕ → Option ℕ → List Bytes → Outcome App
initialize_app start_time stop_time dests =
    let app : App = record {
      num_sent = 0;
      num_received = 0;
      start_time = start_time;
      stop_time = stop_time;
      dest_addresses = dests;
      timer = none;
      socket_open = false;
    } in
    elim stop_time [ none ↦ ok app | some t ↦ if ltb t start_time then thrown else ok app ]

-- `handleStartOperation`
unfoldable pub handle_start : ℕ → App → App
handle_start now app =
    let at = max app.start_time now in
    let started : App = record app { timer = some (start, at) } in
    elim app.stop_time [
      | none ↦ started
      | some t ↦ if ltb at t || (at == t && app.start_time == t) then started else app
    ]

-- `handleStopOperation` and `handleCrashOperation` cancel the timer and close the socket.
abbrev pub handle_stop : App → App
handle_stop app = record app { timer = none; socket_open = false }

-- `processStop`
unfoldable pub process_stop : App → App
process_stop app = record app { socket_open = false }

-- The end of `processSend`.
unfoldable pub schedule_next : ℕ → ℕ → App → App
schedule_next now d app = elim app.stop_time [
  | none ↦ record app { timer = some (send, now + d) }
  | some t ↦ record app { timer = if ltb (now + d) t then some (send, now + d) else some (stop, t) }
]

-- `processStart` where there is no destination.
unfoldable pub only_stop : App → App
only_stop app = elim app.stop_time [ none ↦ app | some t ↦ record app { timer = some (stop, t) } ]

-- `processPacket`
abbrev pub process_packet_app : App → App
process_packet_app app = record app { num_received = app.num_received + 1 }

-- The packet of an entry.
abbrev pub packet_of : MessageEntry → Bytes → ℤ → Packet
packet_of e address port = record {
  bytes = write_frame e.source e.destination e.payload_obj;
  address = address;
  port = port;
}

module _ {S : Type 0} where
  -- What `fetch` leaves.
  abbrev pub fetched : Done S MessageEntry → Node S → Node S
  fetched d n = record n { client = d.client; db = d.db; asked = n.asked ++ d.sent }

  abbrev pub sent_packet : Packet → Node S → Node S
  sent_packet p n = record n {
    app = record n.app { num_sent = n.app.num_sent + 1 };
    packets = n.packets ++ p ∷ [];
  }

module _ {S : Type 0} (os : Os) (r : Redis S) (resolve : Bytes → Outcome Bytes) (port : ℤ) where
  -- `sendPacket`
  unfoldable pub send_packet : Bytes → Node S → Outcome (Node S)
  send_packet response n = do
    d ← fetch_any os r response n.client n.db
    let n' = fetched d n
    if entry_exists d.result
        then (do
          address ← resolve d.result.destination
          ok (sent_packet (packet_of d.result address port) n'))
        else ok n'

  -- `processSend`
  unfoldable pub process_send : ℕ → Firing → Node S → Outcome (Node S)
  process_send now f n = do
    n' ← send_packet f.response n
    ok (record n' { app = schedule_next now f.interval n'.app })

  -- `processStart`, which opens the socket
  unfoldable pub process_start : ℕ → Firing → Node S → Outcome (Node S)
  process_start now f n =
      let opened : Node S = record n { app = record n.app { socket_open = true } } in
      if is_empty n.app.dest_addresses
      then ok (record opened { app = only_stop opened.app })
      else process_send now f opened

  -- `handleMessageWhenUp` on the timer, which is no longer scheduled then.
  unfoldable pub handle_kind : Kind → ℕ → Firing → Node S → Outcome (Node S)
  handle_kind start now f n = process_start now f n
  handle_kind send now f n = process_send now f n
  handle_kind stop now f n = ok (record n { app = process_stop n.app })

  unfoldable pub fire : Firing → Node S → Outcome (Node S)
  fire f n = elim n.app.timer [
    | none ↦ ok n
    | some e ↦ handle_kind e.0 e.1 f (record n { app = record n.app { timer = none } })
  ]

  -- The timers of a run, one after another.
  unfoldable pub run_app : List Firing → Node S → Outcome (Node S)
  run_app [] n = ok n
  run_app (f ∷ fs) n = do n' ← fire f n; run_app fs n'
