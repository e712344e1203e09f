-- ===== src/Rabbit/Broker.antt =====
-- The documented behaviour of the broker behind cpp/rabbit: queues that are first in, first out.
use nsb_ci.Prelude.{
  ℕ, suc, Bytes, Bool, true, false, List, [], ◌∷◌, ◌++◌, none, some, ◌≡◌, str_eq, arith,
}
use nsb_ci.Rabbit.{Amqp, recv_turns}

-- `waiting b q` are the bodies in a queue, oldest first, with those that its consumer was handed and has
-- not taken; a queue that is not bound drops what is published to it. What a cancelled consumer was
-- handed is lost; a wait by `consume` takes at most one body and leaves the others in the queue.
pub record IsBroker {B : Type 0} (amqp : Amqp B) : Type 0 where
  pub waiting : B → Bytes → List Bytes
  pub bound : B → Bytes → Bool
  pub publish_waiting :
      (b : B) (q body : Bytes)
      → bound b q ≡ true
      → waiting (amqp.publish q body b) q ≡ waiting b q ++ body ∷ []
  pub publish_others :
      (b : B) (q body p : Bytes)
      → str_eq q p ≡ false
      → waiting (amqp.publish q body b) p ≡ waiting b p
  pub publish_bound : (b : B) (q body p : Bytes) → bound (amqp.publish q body b) p ≡ bound b p
  pub consume_first :
      (b : B) (q body : Bytes) (rest : List Bytes)
      → waiting b q ≡ body ∷ rest
      → ((amqp.consume q b).0 ≡ some body) × (waiting (amqp.consume q b).1 q ≡ rest)
  pub consume_none :
      (b : B) (q : Bytes)
      → waiting b q ≡ []
      → ((amqp.consume q b).0 ≡ none) × (waiting (amqp.consume q b).1 q ≡ [])
  pub consume_others :
      (b : B) (q p : Bytes) → str_eq q p ≡ false → waiting (amqp.consume q b).1 p ≡ waiting b p
  pub basic_consume_waiting : (b : B) (q : Bytes) → waiting (amqp.basic_consume q b) q ≡ waiting b q
  pub basic_cancel_loses :
      (b : B) (q : Bytes)
      → (lost : List Bytes) × (waiting b q ≡ lost ++ waiting (amqp.basic_cancel q b) q)
  pub consume_bound : (b : B) (q p : Bytes) → bound (amqp.consume q b).1 p ≡ bound b p

-- A wait for a body that is there takes it at once.
pub recv_turns_lem :
    {B : Type 0} (amqp : Amqp B) (broker : IsBroker amqp) (n : ℕ) (q body : Bytes)
    (rest : List Bytes) (b : B)
    → broker.waiting b q ≡ body ∷ rest
    → recv_turns amqp (suc n) q b ≡ (some body, (amqp.consume q b).1)
unfolding recv_turns
recv_turns_lem amqp broker n q body rest b h = ground (arith, broker.consume_first b q body rest h)
