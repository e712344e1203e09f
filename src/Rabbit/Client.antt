-- ===== src/Rabbit/Client.antt =====
-- `NSBClientRMQ`, `NSBAppClientRMQ` and `NSBSimClientRMQ` of cpp/rabbit/src. What the other parties do
-- at the broker between a request and its answer is an argument of `initialize_rmq`.
use nsb_ci.Prelude.{
  ℤ, ℕ, pos, Bytes, List, [], Option, none, some, Bool, length, to_int, if◌then◌else◌,
}
use nsb_ci.Message.{
  Nsbm, new_nsbm, Operation, Originator, OpCode, SystemMode, SimulatorMode, Config, new_config,
  Body, set_manifest, set_metadata, set_payload, get_manifest, get_metadata, get_config,
  get_payload, has_payload, is_message,
}
use nsb_ci.Daemon.{Os, Outcome, ok, thrown, ◌>>=◌}
use nsb_ci.Client.{serialize_as_string}
use nsb_ci.Rabbit.{
  Amqp, Interface, ChannelKind, new_interface, AmqpAttempt, connect, close, publish_on, recv_on,
}

pub data ClientKind : Type 0 where
  app_kind sim_kind : ClientKind

pub record ClientRmq : Type 0 where
  pub id : Bytes
  pub host : Bytes
  pub kind : ClientKind
  pub cfg : Config
  pub comms : Interface

-- `MessageEntry` of these clients
pub record EntryRmq : Type 0 where
  pub src_id : Bytes
  pub dest_id : Bytes
  pub payload : Bytes

abbrev pub originator_of : ClientKind → Originator
originator_of app_kind = Originator.app_client
originator_of sim_kind = Originator.sim_client

-- `buildBaseMsg`, with the code that every caller then sets.
abbrev pub build_base : Operation → ClientKind → Nsbm
build_base op kind = set_manifest op (originator_of kind) OpCode.client_request new_nsbm

-- Anything but PULL is taken for PUSH, and anything but SYSTEM_WIDE for PER_NODE.
abbrev pub mode_of : SystemMode → SystemMode
mode_of SystemMode.pull = SystemMode.pull
mode_of _ = SystemMode.push

abbrev pub simulator_of : SimulatorMode → SimulatorMode
simulator_of SimulatorMode.system_wide = SimulatorMode.system_wide
simulator_of _ = SimulatorMode.per_node

abbrev pub config_rmq : Nsbm → Config
config_rmq m =
    let c = get_config m in
    record {
      system_mode = mode_of c.sys_mode;
      simulator_mode = simulator_of c.sim_mode;
      use_db = c.use_db;
      db_address = c.db_address;
      db_port = c.db_port;
      db_num = c.db_num;
    }

abbrev pub is_init_response : Operation → OpCode → Bool
is_init_response Operation.init OpCode.daemon_response = Bool.true
is_init_response _ _ = Bool.false

-- The message that carries a payload from one name to another.
abbrev pub payload_message : Operation → Originator → Bytes → Bytes → Bytes → Nsbm
payload_message op og src dest payload =
    set_payload payload
      (set_metadata src dest (to_int (length payload)) (set_manifest op og OpCode.message new_nsbm))

-- `receive` and `fetch`: the entry is written over; a message that has no payload leaves the one that
-- was there.
unfoldable pub read_entry : Nsbm → EntryRmq → EntryRmq
read_entry m out =
    let meta = get_metadata m in
    record {
      src_id = meta.src_id;
      dest_id = meta.dest_id;
      payload = if has_payload m then get_payload m else out.payload;
    }

unfoldable pub read_wire : Os → Option Bytes → EntryRmq → Bool × EntryRmq
unfolding read_entry
read_wire os none out = (Bool.false, out)
read_wire os (some wire) out = elim (os.parse wire) [
  | none ↦ (Bool.false, out)
  | some m ↦
      if is_message (get_manifest m).code then (Bool.true, read_entry m out) else (Bool.false, out)
]

module _ {B : Type 0} (os : Os) (amqp : Amqp B) where
  -- The constructor, with the timeout and the attempts of `connect`; `none` while that is in its loop.
  unfoldable pub new_client_rmq :
      ℤ → List AmqpAttempt → Bytes → Bytes → ClientKind → B → Outcome (Option (ClientRmq × B))
  unfolding connect
  new_client_rmq timeout attempts id host kind b = do
    reached ← connect amqp timeout attempts (new_interface id) b
    ok (elim reached [
      | none ↦ none
      | some (comms, b') ↦
          some (record { id = id; host = host; kind = kind; cfg = new_config; comms = comms }, b')
    ])

  abbrev pub init_message : ClientRmq → Nsbm
  init_message c = record (build_base Operation.init c.kind) {
    body = Body.intro (record {
      identifier = c.id;
      address = c.host;
      ch_ctrl = pos 0;
      ch_send = pos 1;
      ch_recv = pos 2;
    });
  }

  -- The answer to INIT; every failure throws.
  unfoldable pub configured_rmq : Option Bytes → ClientRmq → Outcome ClientRmq
  configured_rmq none c = thrown
  configured_rmq (some wire) c = elim (os.parse wire) [
    | none ↦ thrown
    | some m ↦
        if is_init_response (get_manifest m).op (get_manifest m).code
        then ok (record c { cfg = config_rmq m })
        else thrown
  ]

  unfoldable pub initialize_rmq : ℕ → (B → B) → ClientRmq → B → Outcome (ClientRmq × B)
  unfolding publish_on recv_on configured_rmq
  initialize_rmq turns others c b = do
    b' ← publish_on amqp c.comms ChannelKind.ctrl (serialize_as_string os (init_message c)) [] b
    (answer, b'') ← recv_on amqp turns c.comms ChannelKind.ctrl (others b')
    c' ← configured_rmq answer c
    ok (c', b'')

  unfoldable pub ping_rmq : ClientRmq → B → Outcome B
  unfolding publish_on
  ping_rmq c b =
      publish_on amqp c.comms ChannelKind.ctrl
        (serialize_as_string os (build_base Operation.ping c.kind)) [] b

  unfoldable pub exit_rmq : ClientRmq → B → Outcome (ClientRmq × B)
  unfolding publish_on close
  exit_rmq c b = do
    b' ←
        publish_on amqp c.comms ChannelKind.ctrl
          (serialize_as_string os (build_base Operation.exit c.kind)) [] b
    ok (record c { comms = close c.comms }, b')

  -- `NSBAppClientRMQ::send`
  unfoldable pub send_rmq : Bytes → Bytes → ClientRmq → B → Outcome B
  unfolding publish_on
  send_rmq dest payload c b =
      publish_on amqp c.comms ChannelKind.send
        (serialize_as_string os
          (payload_message Operation.send Originator.app_client c.id dest payload))
        dest b

  -- `NSBSimClientRMQ::post`
  unfoldable pub post_rmq : Bytes → Bytes → Bytes → ClientRmq → B → Outcome B
  unfolding publish_on
  post_rmq src dest payload c b =
      publish_on amqp c.comms ChannelKind.send
        (serialize_as_string os
          (payload_message Operation.post Originator.sim_client src dest payload))
        dest b

  -- `NSBAppClientRMQ::receive`
  unfoldable pub receive_rmq : ℕ → EntryRmq → ClientRmq → B → Outcome (Bool × EntryRmq × B)
  unfolding recv_on read_wire
  receive_rmq turns out c b = do
    (wire, b') ← recv_on amqp turns c.comms ChannelKind.recv b
    let (found, out') = read_wire os wire out
    ok (found, out', b')

  -- `NSBSimClientRMQ::fetch`
  unfoldable pub fetch_rmq : ℕ → EntryRmq → ClientRmq → B → Outcome (Bool × EntryRmq × B)
  unfolding recv_on read_wire
  fetch_rmq turns out c b = do
    (wire, b') ← recv_on amqp turns c.comms ChannelKind.recv b
    let (found, out') = read_wire os wire out
    ok (found, out', b')
