-- ===== src/Rabbit.antt =====
-- `RabbitMQInterface` of cpp/rabbit/include/RabbitMQInterface.hpp and
-- cpp/rabbit/src/RabbitMQInterface.cpp. The AMQP client and the broker behind it are a parameter. Every
-- queue is bound to the exchange under its own name, so a routing key is a queue's name.
pub mod Client
pub mod Daemon
pub mod Broker
pub mod Delivery
pub mod Startup
pub mod Listener
pub mod Listening
pub mod Serving
pub mod Heard
use nsb_ci.Prelude.{
  ℕ, ℤ, pos, negsuc, is_negative, leb, ◌&&◌, zero, suc, Bytes, bytes, Bool, true, false, not,
  is_empty, List, [], ◌∷◌, ◌++◌, Option, none, some, if◌then◌else◌,
}
use nsb_ci.Daemon.{Outcome, ok, thrown}

-- The channel of the AMQP client over the state `B` of the broker: to declare and bind a queue, to
-- publish a body, to wait once for a body from a queue, `none` where none came in time, to begin and to
-- cancel a consumer of a queue that does not acknowledge what it gets, and to delete a queue or the
-- exchange. An exception of the last three is caught, and then nothing is cancelled or deleted.
pub record Amqp (B : Type 0) : Type 0 where
  pub declare : Bytes → B → B
  pub publish : Bytes → Bytes → B → B
  pub consume : Bytes → B → Option Bytes × B
  pub basic_consume : Bytes → B → B
  pub basic_cancel : Bytes → B → B
  pub delete_queue : Bytes → B → B
  pub delete_exchange : B → B

pub data ChannelKind : Type 0 where
  ctrl send recv : ChannelKind

-- `connected` tells whether `chan_` is set.
pub record Interface : Type 0 where
  pub id : Bytes
  pub connected : Bool
  pub q_ctrl : Bytes
  pub q_send : Bytes
  pub q_recv : Bytes
  pub listening : Bool

abbrev pub new_interface : Bytes → Interface
new_interface id = record {
  id = id;
  connected = false;
  q_ctrl = [];
  q_send = [];
  q_recv = [];
  listening = false;
}

abbrev pub config_request : Bytes
config_request = bytes "nsb.config.request"

abbrev pub response_queue : Bytes → Bytes
response_queue id = bytes "nsb.config.response." ++ id

abbrev pub recv_queue : Bytes → Bytes
recv_queue id = bytes "nsb.recv." ++ id

unfoldable pub queue_name : Interface → ChannelKind → Bytes
queue_name i ChannelKind.ctrl = i.q_ctrl
queue_name i ChannelKind.send = i.q_send
queue_name i ChannelKind.recv = i.q_recv

-- The routing key of `send`.
unfoldable pub routing : Interface → ChannelKind → Bytes → Bytes
unfolding queue_name
routing i ChannelKind.ctrl dest = config_request
routing i ChannelKind.send dest =
    if not (is_empty dest) then recv_queue dest else queue_name i ChannelKind.send
routing i ChannelKind.recv dest = queue_name i ChannelKind.recv

-- An attempt to connect: the broker was reached, or it failed, so many whole seconds after the start.
pub data AmqpAttempt : Type 0 where
  reached : AmqpAttempt
  failed_after : ℕ → AmqpAttempt

-- `elapsed >= timeout_seconds`
abbrev pub has_passed : ℤ → ℕ → Bool
has_passed (pos t) n = leb t n
has_passed (negsuc t) n = true

unfoldable pub close : Interface → Interface
close i = record i { connected = false }

module _ {B : Type 0} (amqp : Amqp B) where
  unfoldable pub declare_exchange_and_queues : Interface → B → Interface × B
  declare_exchange_and_queues i b =
      let q : Bytes = bytes "nsb.send." ++ i.id in
      (
        record i { q_ctrl = response_queue i.id; q_send = q; q_recv = recv_queue i.id },
        amqp.declare config_request (
            amqp.declare (recv_queue i.id) (amqp.declare q (amqp.declare (response_queue i.id) b))),
      )

  -- `connect`. A failure throws where the timeout is not negative and that many seconds have passed;
  -- `none` where the attempts end before the loop does.
  unfoldable pub connect : ℤ → List AmqpAttempt → Interface → B → Outcome (Option (Interface × B))
  unfolding declare_exchange_and_queues
  connect timeout [] i b = ok none
  connect timeout (reached ∷ rest) i b =
      ok (some (declare_exchange_and_queues (record i { connected = true }) b))
  connect timeout (failed_after n ∷ rest) i b =
      let later = connect timeout rest i b in
      if not (is_negative timeout) && has_passed timeout n then thrown else later

  unfoldable pub publish_on : Interface → ChannelKind → Bytes → Bytes → B → Outcome B
  unfolding routing
  publish_on i ch wire dest b =
      if i.connected then ok (amqp.publish (routing i ch dest) wire b) else thrown

  -- The loop of `recv`: as many turns as the deadline allows.
  unfoldable pub recv_turns : ℕ → Bytes → B → Option Bytes × B
  recv_turns zero q b = (none, b)
  recv_turns (suc n) q b =
      let (env, b') = amqp.consume q b in
      let later = recv_turns n q b' in elim env [ none ↦ later | some body ↦ (some body, b') ]

  unfoldable pub recv_on : ℕ → Interface → ChannelKind → B → Outcome (Option Bytes × B)
  unfolding recv_turns queue_name
  recv_on turns i ch b = if i.connected then ok (recv_turns turns (queue_name i ch) b) else thrown
