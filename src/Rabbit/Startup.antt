-- ===== src/Rabbit/Startup.antt =====
-- INIT and PING between the clients and the daemon of cpp/rabbit.
use nsb_ci.Prelude.{
  ℕ, suc, Bytes, true, false, [], ◌∷◌, ◌++◌, some, ◌≡◌, refl, ◌≢◌, ap, ◌∙◌, arith, str_eq,
}
use nsb_ci.Message.{Operation, Nsbm, Body, Config, ConfigParams, SystemMode, SimulatorMode}
use nsb_ci.Daemon.{Os, ok}
use nsb_ci.Client.{serialize_as_string}
use nsb_ci.Client.Relay.{Encodes}
use nsb_ci.Rabbit.{Amqp, ChannelKind, config_request, response_queue, publish_on, recv_on}
use nsb_ci.Rabbit.Client.{
  ClientRmq, mode_of, simulator_of, init_message, configured_rmq, initialize_rmq,
}
use nsb_ci.Rabbit.Daemon.{DaemonRmq, daemon_message, handle_rmq, turn_rmq}
use nsb_ci.Rabbit.Broker.{IsBroker, recv_turns_lem}

abbrev pub init_answer_message : DaemonRmq → Nsbm
init_answer_message d = record (daemon_message Operation.init) { body = Body.config d.cfg }

apart : (id : Bytes) → str_eq config_request (response_queue id) ≡ false
unfolding str_eq
apart id = refl

-- What a client takes over: a mode that is not PULL is PUSH for it, and one that is not SYSTEM_WIDE is
-- PER_NODE.
pub record TakesOver (given : ConfigParams) (cfg : Config) : Type 0 where
  pub pull : given.sys_mode ≡ SystemMode.pull → cfg.system_mode ≡ SystemMode.pull
  pub push : given.sys_mode ≢ SystemMode.pull → cfg.system_mode ≡ SystemMode.push
  pub system_wide :
      given.sim_mode ≡ SimulatorMode.system_wide → cfg.simulator_mode ≡ SimulatorMode.system_wide
  pub per_node :
      given.sim_mode ≢ SimulatorMode.system_wide → cfg.simulator_mode ≡ SimulatorMode.per_node
  pub use_db : cfg.use_db ≡ given.use_db
  pub db_address : cfg.db_address ≡ given.db_address
  pub db_port : cfg.db_port ≡ given.db_port
  pub db_num : cfg.db_num ≡ given.db_num

mode_cases :
    (mode : SystemMode)
    → (mode ≡ SystemMode.pull → mode_of mode ≡ SystemMode.pull)
      × (mode ≢ SystemMode.pull → mode_of mode ≡ SystemMode.push)
mode_cases SystemMode.pull = ((λ e. refl), (λ ne. absurd (ne refl)))
mode_cases SystemMode.push = ((λ e. cc), (λ ne. refl))
mode_cases (SystemMode.other n) = ((λ e. cc), (λ ne. refl))

simulator_cases :
    (mode : SimulatorMode)
    → (mode ≡ SimulatorMode.system_wide → simulator_of mode ≡ SimulatorMode.system_wide)
      × (mode ≢ SimulatorMode.system_wide → simulator_of mode ≡ SimulatorMode.per_node)
simulator_cases SimulatorMode.system_wide = ((λ e. refl), (λ ne. absurd (ne refl)))
simulator_cases SimulatorMode.per_node = ((λ e. cc), (λ ne. refl))
simulator_cases (SimulatorMode.other n) = ((λ e. cc), (λ ne. refl))

abbrev configured_by : DaemonRmq → ClientRmq → ClientRmq
configured_by d c = record c {
  cfg = record {
    system_mode = mode_of d.cfg.sys_mode;
    simulator_mode = simulator_of d.cfg.sim_mode;
    use_db = d.cfg.use_db;
    db_address = d.cfg.db_address;
    db_port = d.cfg.db_port;
    db_num = d.cfg.db_num;
  };
}

configured_by-TakesOver : (d : DaemonRmq) (c : ClientRmq) → TakesOver d.cfg (configured_by d c).cfg
configured_by-TakesOver d c = record {
  pull = (mode_cases d.cfg.sys_mode).0;
  push = (mode_cases d.cfg.sys_mode).1;
  system_wide = (simulator_cases d.cfg.sim_mode).0;
  per_node = (simulator_cases d.cfg.sim_mode).1;
  use_db = refl;
  db_address = refl;
  db_port = refl;
  db_num = refl;
}

module _ {B : Type 0} (os : Os) (amqp : Amqp B) (broker : IsBroker amqp) where
  daemon_replies :
      (d : DaemonRmq) (c : ClientRmq) (asks answers : Bytes) (b : B)
      → c.id ≢ []
      → os.parse asks ≡ some (init_message os amqp c)
      → os.serialize (init_answer_message d) ≡ some answers
      → handle_rmq os amqp d asks b ≡ amqp.publish (response_queue c.id) answers b
  unfolding handle_rmq
  daemon_replies d c asks answers b named parsed serialized = ground arith

  -- One turn of the daemon, when the request is the only one.
  daemon_turns :
      (d : DaemonRmq) (c : ClientRmq) (asks answers : Bytes) (b : B)
      → c.id ≢ []
      → broker.waiting b config_request ≡ asks ∷ []
      → os.parse asks ≡ some (init_message os amqp c)
      → os.serialize (init_answer_message d) ≡ some answers
      → turn_rmq os amqp d b
        ≡ amqp.publish (response_queue c.id) answers (amqp.consume config_request b).1
  unfolding turn_rmq
  daemon_turns d c asks answers b named w parsed serialized = ground (
    arith,
    broker.consume_first b config_request asks [] w,
    daemon_replies d c asks answers (amqp.consume config_request b).1 named parsed serialized,
  )

  -- The answer arrives alone in the queue of the client.
  answer_waits :
      (id asks answers : Bytes) (b : B)
      → broker.bound b (response_queue id) ≡ true
      → broker.waiting b (response_queue id) ≡ []
      → broker.waiting
          (amqp.publish
            (response_queue id)
            answers
            (amqp.consume config_request (amqp.publish config_request asks b)).1)
          (response_queue id)
        ≡ answers ∷ []
  answer_waits id asks answers b bound empty =
      let q = response_queue id in
      let b1 = amqp.publish config_request asks b in
      let b2 = (amqp.consume config_request b1).1 in
      let still : broker.bound b2 q ≡ true =
        broker.consume_bound b1 config_request q
        ∙ broker.publish_bound b config_request asks q
        ∙ bound in
      let none_yet : broker.waiting b2 q ≡ [] =
        broker.consume_others b1 config_request q (apart id)
        ∙ broker.publish_others b config_request asks q (apart id)
        ∙ empty in
      broker.publish_waiting b2 q answers still ∙ ap (λ l. l ++ answers ∷ []) none_yet

  asked :
      (c : ClientRmq) (asks : Bytes) (b : B)
      → c.comms.connected ≡ true
      → os.serialize (init_message os amqp c) ≡ some asks
      → publish_on amqp c.comms ChannelKind.ctrl
          (serialize_as_string os (init_message os amqp c))
          []
          b
        ≡ ok (amqp.publish config_request asks b)
  unfolding publish_on
  asked c asks b up serialized = ground arith

  answered :
      (c : ClientRmq) (answers : Bytes) (turns : ℕ) (b : B)
      → c.comms.connected ≡ true
      → c.comms.q_ctrl ≡ response_queue c.id
      → broker.waiting b (response_queue c.id) ≡ answers ∷ []
      → recv_on amqp (suc turns) c.comms ChannelKind.ctrl b
        ≡ ok (some answers, (amqp.consume (response_queue c.id) b).1)
  unfolding recv_on
  answered c answers turns b up queue w =
      rw (up, queue) (ap ok (recv_turns_lem amqp broker turns (response_queue c.id) answers [] b w))

  takes_over :
      (d : DaemonRmq) (c : ClientRmq) (answers : Bytes)
      → os.parse answers ≡ some (init_answer_message d)
      → configured_rmq os amqp (some answers) c ≡ ok (configured_by d c)
  unfolding configured_rmq
  takes_over d c answers parsed = ground arith

  -- A client that sends INIT, and waits for at least one turn after the daemon has had one, ends with
  -- the daemon's configuration: PULL for PULL and PUSH for any other mode, SYSTEM_WIDE for SYSTEM_WIDE
  -- and PER_NODE for any other, and the same four fields of the database. All else of it stays. Its two queues are bound and empty before, its name is not empty, and the codec carries the request
  -- and the answer.
  pub initialize_rmq-turn_rmq :
      (d : DaemonRmq) (c : ClientRmq) (asks answers : Bytes) (turns : ℕ) (b : B)
      → c.comms.connected ≡ true
      → c.comms.q_ctrl ≡ response_queue c.id
      → c.id ≢ []
      → broker.bound b config_request ≡ true
      → broker.bound b (response_queue c.id) ≡ true
      → broker.waiting b config_request ≡ []
      → broker.waiting b (response_queue c.id) ≡ []
      → Encodes os (init_message os amqp c) asks
      → Encodes os (init_answer_message d) answers
      → (b' : B) × (cfg : Config) × TakesOver d.cfg cfg
        × (initialize_rmq os amqp (suc turns) (turn_rmq os amqp d) c b
            ≡ ok (record c { cfg = cfg }, b'))
  unfolding initialize_rmq
  initialize_rmq-turn_rmq d c asks answers turns b up queue named bound bound' empty empty' h h' =
      let b1 = amqp.publish config_request asks b in
      let b3 = amqp.publish (response_queue c.id) answers (amqp.consume config_request b1).1 in
      let w : broker.waiting b1 config_request ≡ asks ∷ [] =
        broker.publish_waiting b config_request asks bound ∙ ap (λ l. l ++ asks ∷ []) empty in
      (
        (amqp.consume (response_queue c.id) b3).1,
        (configured_by d c).cfg,
        configured_by-TakesOver d c,
        rw
            (
              asked c asks b up h.serialized,
              daemon_turns d c asks answers b1 named w h.parsed h'.serialized,
              answered c answers turns b3 up queue (answer_waits c.id asks answers b bound' empty'),
              takes_over d c answers h'.parsed,
            )
            refl,
      )
