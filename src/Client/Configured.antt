-- ===== src/Client/Configured.antt =====
-- What `initialize` and `ping` of cpp/src/nsb_client.cc make of the answers of cpp/src/nsb_daemon.cc.
use nsb_ci.Prelude.{
  ℤ, Bytes, Bool, true, false, [], ◌∷◌, some, ◌≡◌, refl, ap, ◌∙◌, List, arith, if◌then◌else◌,
}
use nsb_ci.Message.{Nsbm, Operation, Originator, OpCode}
use nsb_ci.Daemon.{Daemon, Os, Effect, ok, sent}
use nsb_ci.Daemon.Init.{init_response, handle_ping}
use nsb_ci.Daemon.Dispatch.{handle_message, response_template, dispatch_on}
use nsb_ci.Db.{Redis, is_connected}
use nsb_ci.Client.{Client, Channel, request}
use nsb_ci.Client.Setup.{Surroundings, Begun, running, exited, initialize, ping, read_ping}
use nsb_ci.Client.Relay.{
  Encodes, hand_over, hand_over-one, handle_message-handled, transmit-Encodes,
}

module _ {S : Type 0} (r : Redis S) (w : Surroundings S) where
  -- The client of a daemon that accepts it: it has the daemon's configuration, and its own connection
  -- to the database where that names one.
  abbrev pub configured : Daemon → Client → S → Begun S
  configured d c s =
      let s' = w.redis_connect d.cfg.db_address d.cfg.db_port s in
      if d.cfg.use_db
      then (if is_connected r s'
          then running
              (record c {
                cfg = record d.cfg { db_address = w.moved_from };
                db = some (record { client_id = c.client_id; plctr = 0 });
              })
              s'
          else exited)
      else running
          (record c {
            cfg = record d.cfg { db_address = []; db_port = w.port_before; db_num = w.num_before };
          })
          s

  -- A client that reads the daemon's answer to INIT takes over the daemon's modes and its use of a
  -- database. Where a database is used it is connected to, at the daemon's address and port, and the
  -- process ends if that fails; where none is, the address is empty, and the port and the number are
  -- whatever they were. An answer that refuses the client ends its process.
  pub initialize-init_response :
      (os : Os) (response : Bytes) (d : Daemon) (c : Client) (og : Originator) (s : S) (ok? : Bool)
      → c.origin ≡ some og
      → Encodes os (init_response d ok? response_template).outgoing response
      → (initialize os r w response c s).0 ≡ (if ok? then configured d c s else exited)
  unfolding initialize init_response
  initialize-init_response os [] d c og s ok? set h = absurd (h.not_empty refl)
  initialize-init_response os (b ∷ bs) d c og s true set h = ground (arith, h.parsed)
  initialize-init_response os (b ∷ bs) d c og s false set h = ground (arith, h.parsed)

asks_once :
    (os : Os) (asks answers : Bytes) (c : Client) (og : Originator)
    → c.origin ≡ some og
    → Encodes os (request Operation.ping og OpCode.success) asks
    → ping os answers c
      ≡ (read_ping os answers, record { channel = Channel.ctrl; wire = asks } ∷ [])
unfolding ping
asks_once os asks answers c og set h = ground (arith, h.serialized)

answered :
    (os : Os) (answers : Bytes) (d : Daemon) (m : Nsbm)
    → Encodes os (handle_ping d m response_template).1.outgoing answers
    → read_ping os answers ≡ true
unfolding read_ping handle_ping
answered os [] d m h = absurd (h.not_empty refl)
answered os (b ∷ bs) d m h = ground (arith, h.parsed)

daemon_pings :
    (os : Os) (fd : ℤ) (asks answers : Bytes) (d : Daemon) (og : Originator)
    → Encodes os (request Operation.ping og OpCode.success) asks
    → Encodes os
        (handle_ping d (request Operation.ping og OpCode.success) response_template).1.outgoing
        answers
    → handle_message os fd d asks ≡ ok (d, sent fd answers ∷ [])
unfolding dispatch_on handle_ping
daemon_pings os fd asks answers d og h back =
    handle_message-handled os fd d d _ asks _ h.parsed refl
    ∙ ap (λ (effects : List Effect). ok (d, effects)) (transmit-Encodes os fd _ answers back)

-- A PING that reaches the daemon changes nothing there, is answered on the channel that it came from,
-- in either mode, and the client that reads the answer returns true.
pub ping-handle_ping :
    (os : Os) (fd : ℤ) (asks answers : Bytes) (d : Daemon) (c : Client) (og : Originator)
    → c.origin ≡ some og
    → Encodes os (request Operation.ping og OpCode.success) asks
    → Encodes os
        (handle_ping d (request Operation.ping og OpCode.success) response_template).1.outgoing
        answers
    → (hand_over os fd (ping os answers c).1 d ≡ ok (d, sent fd answers ∷ []))
      × ((ping os answers c).0 ≡ true)
ping-handle_ping os fd asks answers d c og set h back = rw (asks_once os asks answers c og set h) (
  hand_over-one os fd _ d d _ (daemon_pings os fd asks answers d og h back),
  answered os answers d _ back,
)
