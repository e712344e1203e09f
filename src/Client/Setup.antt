-- ===== src/Client/Setup.antt =====
-- `initialize`, `ping` and `exit` of cpp/src/nsb_client.cc.
use nsb_ci.Prelude.{ℤ, pos, Bytes, Bool, true, false, List, [], ◌∷◌, none, some, if◌then◌else◌}
use nsb_ci.Message.{
  Nsbm, Operation, OpCode, Body, IntroDetails, get_manifest, has_config, config_of,
}
use nsb_ci.Daemon.{Os, Outcome, ok, ◌>>=◌}
use nsb_ci.Db.{Redis, is_connected}
use nsb_ci.Client.{Client, Channel, Sent, serialize_as_string, request, deref}

-- What `getsockname` says of a channel: it failed, the address is not IPv4, or a port and an address.
pub data SockName : Type 0 where
  failed other_family : SockName
  inet : ℤ → Bytes → SockName

abbrev pub port_of : SockName → ℤ
port_of (inet port address) = port
port_of _ = pos 0

abbrev pub address_of : SockName → Bytes
address_of (inet port address) = address
address_of _ = []

-- The world around `initialize`: the sockets, `redisConnect`, and the values that the source leaves
-- open: two integers that are not initialised, and a string that is moved from.
pub record Surroundings (S : Type 0) : Type 0 where
  pub sockname : Channel → SockName
  pub redis_connect : Bytes → ℤ → S → S
  pub port_before : ℤ
  pub num_before : ℤ
  pub moved_from : Bytes

abbrev pub intro_of : (Channel → SockName) → Bytes → IntroDetails
intro_of sockname id = record {
  identifier = id;
  address = address_of (sockname Channel.ctrl);
  ch_ctrl = port_of (sockname Channel.ctrl);
  ch_send = port_of (sockname Channel.send);
  ch_recv = port_of (sockname Channel.recv);
}

-- `std::exit(EXIT_FAILURE)` ends the process.
pub data Begun (S : Type 0) : Type 0 where
  running : Client → S → Begun S
  exited : Begun S

module _ {S : Type 0} (os : Os) (r : Redis S) (w : Surroundings S) where
  -- Take the configuration over, and connect to the database where there is one.
  unfoldable pub set_up : Nsbm → Client → S → Begun S
  unfolding config_of is_connected
  set_up m c s =
      let cfg = config_of w.port_before w.num_before m in
      let s' = w.redis_connect cfg.db_address cfg.db_port s in
      if cfg.use_db
      then (if is_connected r s'
          then running
              (record c {
                cfg = record cfg { db_address = w.moved_from };
                db = some (record { client_id = c.client_id; plctr = 0 });
              })
              s'
          else exited)
      else running (record c { cfg = cfg }) s

  abbrev init_answer : Operation → OpCode → Nsbm → Client → S → Begun S
  init_answer Operation.init OpCode.success m c s =
      if has_config m then set_up m c s else running c s
  init_answer Operation.init _ m c s = exited
  init_answer _ _ m c s = running c s

  unfoldable pub read_init : Bytes → Client → S → Begun S
  unfolding set_up
  read_init [] c s = running c s
  read_init (b ∷ bs) c s = elim (os.parse (b ∷ bs)) [
    | none ↦ running c s
    | some m ↦ init_answer (get_manifest m).op (get_manifest m).code m c s
  ]

  -- `initialize`, with the answer that `receiveMessage` returns.
  unfoldable pub initialize : Bytes → Client → S → Begun S × List Sent
  unfolding read_init
  initialize response c s = elim c.origin [
    | none ↦ (running c s, [])
    | some og ↦
        let m : Nsbm = record (request Operation.init og OpCode.success) {
          body = Body.intro (intro_of w.sockname c.client_id);
        } in
        (
          read_init response c s,
          record { channel = Channel.ctrl; wire = serialize_as_string os m } ∷ [],
        )
  ]

abbrev ping_answer : Operation → OpCode → Bool
ping_answer Operation.ping OpCode.success = true
ping_answer _ _ = false

unfoldable pub read_ping : Os → Bytes → Bool
read_ping os [] = false
read_ping os (b ∷ bs) = elim (os.parse (b ∷ bs)) [
  | none ↦ false
  | some m ↦ ping_answer (get_manifest m).op (get_manifest m).code
]

unfoldable pub ping : Os → Bytes → Client → Bool × List Sent
unfolding read_ping
ping os response c = elim c.origin [
  | none ↦ (false, [])
  | some og ↦ (
    read_ping os response,
    record {
      channel = Channel.ctrl;
      wire = serialize_as_string os (request Operation.ping og OpCode.success);
    }
        ∷ [],
  )
]

-- `exit` does not look whether the indicator is set.
unfoldable pub exit : Os → Client → Outcome (List Sent)
exit os c = do
  og ← deref c.origin
  ok (
      record {
        channel = Channel.ctrl;
        wire = serialize_as_string os (request Operation.exit og OpCode.success);
      }
      ∷ [])
