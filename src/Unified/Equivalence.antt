-- ===== src/Unified/Equivalence.antt =====
-- `RabbitMQBackend` of cpp/rabbit/src/NSBUnified.cpp against `RabbitMQInterface` of
-- cpp/rabbit/src/RabbitMQInterface.cpp.
use nsb_ci.Prelude.{ℤ, is_negative, ℕ, Bytes, false, List, [], ◌∷◌, Option, none, some, ◌≡◌}
use nsb_ci.Daemon.{Outcome, ok, ◌>>=◌}
use nsb_ci.Client.{Channel}
use nsb_ci.Rabbit.{AmqpAttempt, Amqp, Interface, ChannelKind, close, connect, publish_on, recv_on}
use nsb_ci.Unified.RabbitBackend.{BackendImpl, close_impl, connect_impl, send_impl, recv_impl}

-- What a client may ask of either.
pub data BackendCall : Type 0 where
  connect_within : ℤ → List AmqpAttempt → BackendCall
  send_on : Channel → Bytes → Bytes → BackendCall
  recv_within : ℕ → Channel → BackendCall
  close_it : BackendCall

abbrev pub kind_of : Channel → ChannelKind
kind_of Channel.ctrl = ChannelKind.ctrl
kind_of Channel.send = ChannelKind.send
kind_of Channel.recv = ChannelKind.recv

-- The interface that a backend stands for: one that listens to nothing.
abbrev pub as_interface : BackendImpl → Interface
as_interface i = record {
  id = i.id;
  connected = i.has_chan;
  q_ctrl = i.q_ctrl;
  q_send = i.q_send;
  q_recv = i.q_recv;
  listening = false;
}

-- What a run of calls leaves: the interface, the broker, and the texts that were received; `none` while a
-- call has not returned.
abbrev pub Left : Type 0 → Type 0 → Type 0
Left I B = Outcome (Option (I × B × List Bytes))

abbrev received :
    {I B : Type 0} → Option Bytes → Option (I × B × List Bytes) → Option (I × B × List Bytes)
received got none = none
received none (some s) = some s
received (some body) (some s) = some (s.0, s.1, body ∷ s.2)

-- What follows a call, once it has returned.
abbrev then_on : {X Y : Type 0} → (X → Outcome (Option Y)) → Option X → Outcome (Option Y)
then_on k none = ok none
then_on k (some x) = k x

-- No call of `connect` has a negative timeout, for which `RabbitMQInterface` tries for ever.
abbrev pub IsTimed : BackendCall → Type 0
IsTimed (connect_within timeout tries) = is_negative timeout ≡ false
IsTimed _ = Unit {0}

abbrev pub as_left :
    {B : Type 0} → Option (BackendImpl × B × List Bytes) → Option (Interface × B × List Bytes)
as_left none = none
as_left (some s) = some (as_interface s.0, s.1, s.2)

abbrev as_connected : {B : Type 0} → Option (BackendImpl × B) → Option (Interface × B)
as_connected none = none
as_connected (some s) = some (as_interface s.0, s.1)

module _ {B : Type 0} (amqp : Amqp B) where
  unfoldable pub run_backend : List BackendCall → BackendImpl → B → Left BackendImpl B
  run_backend [] i b = ok (some (i, b, []))
  run_backend (connect_within timeout tries ∷ calls) i b = do
    o ← connect_impl amqp timeout tries i b
    then_on (λ s. run_backend calls s.0 s.1) o
  run_backend (send_on ch wire dest ∷ calls) i b = do
    b' ← send_impl amqp ch wire dest i b
    run_backend calls i b'
  run_backend (recv_within turns ch ∷ calls) i b = do
    s ← recv_impl amqp turns ch i b
    t ← run_backend calls i s.1
    ok (received s.0 t)
  run_backend (close_it ∷ calls) i b = run_backend calls (close_impl i) b

  unfoldable pub run_interface : List BackendCall → Interface → B → Left Interface B
  run_interface [] i b = ok (some (i, b, []))
  run_interface (connect_within timeout tries ∷ calls) i b = do
    o ← connect amqp timeout tries i b
    then_on (λ s. run_interface calls s.0 s.1) o
  run_interface (send_on ch wire dest ∷ calls) i b = do
    b' ← publish_on amqp i (kind_of ch) wire dest b
    run_interface calls i b'
  run_interface (recv_within turns ch ∷ calls) i b = do
    s ← recv_on amqp turns i (kind_of ch) b
    t ← run_interface calls i s.1
    ok (received s.0 t)
  run_interface (close_it ∷ calls) i b = run_interface calls (close i) b

  abbrev mapped : {X Y : Type 0} → (X → Y) → Outcome X → Outcome Y
  mapped f m = m >>= λ x. ok (f x)
