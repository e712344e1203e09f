-- ===== src/Unified/RabbitBackend.antt =====
-- `RabbitMQBackendImpl` of cpp/rabbit/src/NSBUnified.cpp, to which `RabbitMQBackend` forwards its calls.
use nsb_ci.Prelude.{
  ℤ, ℕ, zero, suc, Bytes, bytes, Bool, true, false, not, List, [], ◌∷◌, ◌++◌, Option, none, some,
  if◌then◌else◌,
}
use nsb_ci.Daemon.{Outcome, ok, thrown}
use nsb_ci.Client.{Channel}
use nsb_ci.Rabbit.{Amqp, AmqpAttempt, reached, failed_after, has_passed}

-- `has_chan` tells whether `chan_` is set.
pub record BackendImpl : Type 0 where
  pub id : Bytes
  pub has_chan : Bool
  pub q_ctrl : Bytes
  pub q_send : Bytes
  pub q_recv : Bytes

abbrev pub new_backend : Bytes → BackendImpl
new_backend id = record { id = id; has_chan = false; q_ctrl = []; q_send = []; q_recv = [] }

-- `close`
unfoldable pub close_impl : BackendImpl → BackendImpl
close_impl i = record i { has_chan = false }

-- `queueName`
unfoldable pub queue_name_impl : BackendImpl → Channel → Bytes
queue_name_impl i Channel.ctrl = i.q_ctrl
queue_name_impl i Channel.send = i.q_send
queue_name_impl i Channel.recv = i.q_recv

-- The routing key of `send`.
unfoldable pub routing_impl : BackendImpl → Channel → Bytes → Bytes
routing_impl i Channel.ctrl dest = bytes "nsb.config.request"
routing_impl i Channel.send [] = queue_name_impl i Channel.send
routing_impl i Channel.send (b ∷ dest) = bytes "nsb.recv." ++ (b ∷ dest)
routing_impl i Channel.recv dest = queue_name_impl i Channel.recv

module _ {B : Type 0} (amqp : Amqp B) where
  -- `declareQueues`
  unfoldable pub declare_queues : BackendImpl → B → BackendImpl × B
  declare_queues i b =
      let ctrl : Bytes = bytes "nsb.config.response." ++ i.id in
      let send : Bytes = bytes "nsb.send." ++ i.id in
      let recv : Bytes = bytes "nsb.recv." ++ i.id in
      let b1 = amqp.declare ctrl b in
      let b2 = amqp.declare send b1 in
      let b3 = amqp.declare recv b2 in
      (
        record i { q_ctrl = ctrl; q_send = send; q_recv = recv },
        amqp.declare (bytes "nsb.config.request") b3,
      )

  -- `connect`. A failure throws where that many seconds have passed, so with a negative timeout the first
  -- one does, where `RabbitMQInterface` tries for ever; `none` where the attempts end before the loop does.
  unfoldable pub connect_impl :
      ℤ → List AmqpAttempt → BackendImpl → B → Outcome (Option (BackendImpl × B))
  connect_impl timeout [] i b = ok none
  connect_impl timeout (reached ∷ attempts) i b =
      ok (some (declare_queues (record i { has_chan = true }) b))
  connect_impl timeout (failed_after n ∷ attempts) i b =
      let later = connect_impl timeout attempts i b in
      if has_passed timeout n then thrown else later

  -- `send`
  unfoldable pub send_impl : Channel → Bytes → Bytes → BackendImpl → B → Outcome B
  send_impl ch wire dest i b =
      if not i.has_chan then thrown else ok (amqp.publish (routing_impl i ch dest) wire b)

  -- The loop of `recv`: as many turns as the deadline allows.
  unfoldable pub recv_loop_impl : ℕ → Bytes → B → Option Bytes × B
  recv_loop_impl zero q b = (none, b)
  recv_loop_impl (suc n) q b =
      let (env, b') = amqp.consume q b in
      let again = recv_loop_impl n q b' in elim env [ some body ↦ (some body, b') | none ↦ again ]

  -- `recv`
  unfoldable pub recv_impl : ℕ → Channel → BackendImpl → B → Outcome (Option Bytes × B)
  recv_impl turns ch i b =
      if not i.has_chan then thrown else ok (recv_loop_impl turns (queue_name_impl i ch) b)
