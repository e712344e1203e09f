-- ===== src/Rabbit/Daemon.antt =====
-- `NSBDaemonRMQ` of cpp/rabbit/src/NSBDaemonRMQ.cpp, which hands out the configuration and answers
-- pings; the clients send their messages to each other.
use nsb_ci.Prelude.{
  ℤ, Bytes, Bool, true, false, List, [], ◌∷◌, is_empty, is_some, none, some, if◌then◌else◌,
}
use nsb_ci.Message.{
  Nsbm, new_nsbm, Operation, Originator, OpCode, Body, ConfigParams, default_config, to_system_mode,
  to_simulator_mode, set_manifest, get_manifest, get_metadata, get_intro,
}
use nsb_ci.Daemon.{Os, Outcome, ok, thrown}
use nsb_ci.Client.{serialize_as_string}
use nsb_ci.Rabbit.{Amqp, response_queue, config_request}

pub record DaemonRmq : Type 0 where
  pub cfg : ConfigParams
  pub running : Bool

abbrev pub new_daemon_rmq : DaemonRmq
new_daemon_rmq = record { cfg = default_config; running = false }

unfoldable pub set_config : ℤ → ℤ → Bool → Bytes → ℤ → ℤ → DaemonRmq → DaemonRmq
unfolding to_system_mode to_simulator_mode
set_config sys sim db address port num d = record d {
  cfg = record {
    sys_mode = to_system_mode sys;
    sim_mode = to_simulator_mode sim;
    use_db = db;
    db_address = address;
    db_port = port;
    db_num = num;
  };
}

abbrev pub daemon_message : Operation → Nsbm
daemon_message op = set_manifest op Originator.daemon OpCode.daemon_response new_nsbm

abbrev pub intro_id : Nsbm → Bytes
intro_id m = (get_intro m).identifier

-- Whom a PING is answered to: the client of its introduction, or its source.
unfoldable pub ping_id : Nsbm → Bytes
ping_id m =
    if is_empty (intro_id m)
    then (if is_some m.metadata then (get_metadata m).src_id else intro_id m)
    else intro_id m

module _ {B : Type 0} (os : Os) (amqp : Amqp B) where
  -- Publish an answer for a client; nothing where the client is not named.
  unfoldable pub answer_to : Bytes → Nsbm → B → B
  answer_to id m b =
      if is_empty id then b else amqp.publish (response_queue id) (serialize_as_string os m) b

  unfoldable pub reply_init : DaemonRmq → Nsbm → B → B
  unfolding answer_to
  reply_init d m b =
      answer_to (intro_id m) (record (daemon_message Operation.init) { body = Body.config d.cfg }) b

  unfoldable pub reply_ping : Nsbm → B → B
  unfolding answer_to ping_id
  reply_ping m b = answer_to (ping_id m) (daemon_message Operation.ping) b

  unfoldable pub reply_on : Operation → DaemonRmq → Nsbm → B → B
  unfolding reply_init reply_ping
  reply_on Operation.init d m b = reply_init d m b
  reply_on Operation.ping d m b = reply_ping m b
  reply_on _ d m b = b

  -- `handle_message`, which ignores what does not parse and what has no manifest.
  unfoldable pub handle_rmq : DaemonRmq → Bytes → B → B
  unfolding reply_on
  handle_rmq d wire b = elim (os.parse wire) [
    | none ↦ b
    | some m ↦ if is_some m.manifest then reply_on (get_manifest m).op d m b else b
  ]

  -- One turn of `run_loop`.
  unfoldable pub turn_rmq : DaemonRmq → B → B
  unfolding handle_rmq
  turn_rmq d b =
      let (env, b') = amqp.consume config_request b in
      elim env [ none ↦ b' | some wire ↦ handle_rmq d wire b' ]

  -- `start`, with whether the broker can be reached. It starts `run_loop` on a thread.
  unfoldable pub start_rmq : Bool → DaemonRmq → B → Outcome (DaemonRmq × B)
  start_rmq reached d b =
      if d.running
      then ok (d, b)
      else if reached
      then ok (record d { running = true }, amqp.declare config_request b)
      else thrown

  -- `run_loop`: the turns at which `running_` is still set, each after what the other parties did.
  unfoldable pub run_loop : List (B → B) → DaemonRmq → B → B
  run_loop [] d b = b
  run_loop (others ∷ turns) d b = run_loop turns d (turn_rmq d (others b))

  -- `stop`, once the thread has ended.
  unfoldable pub stop_rmq : DaemonRmq → B → DaemonRmq × B
  stop_rmq d b =
      if d.running
      then (record d { running = false }, amqp.delete_exchange (amqp.delete_queue config_request b))
      else (d, b)
