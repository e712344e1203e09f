-- ===== src/Rabbit/Serving.antt =====
-- What the daemon of the RabbitMQ variant makes of the INIT requests that wait for it.
use nsb_ci.Prelude.{
  Bytes, true, false, List, [], ◌∷◌, ◌++◌, some, ◌≡◌, refl, arith, All, length, append_assoc,
  append-nil, ap, sym, ◌∙◌, str_eq, str_eq_iff, is_some, is_empty, if◌then◌else◌, Bool-cases, inl,
  inr,
}
use nsb_ci.Message.{Nsbm, Operation, get_manifest}
use nsb_ci.Daemon.{Os}
use nsb_ci.Rabbit.{Amqp, config_request, response_queue}
use nsb_ci.Rabbit.Daemon.{DaemonRmq, intro_id, handle_rmq, turn_rmq, run_loop}
use nsb_ci.Rabbit.Broker.{IsBroker}
use nsb_ci.Rabbit.Startup.{init_answer_message}

-- A text that asks for the configuration, in the name of a client.
pub record Asks (os : Os) (wire id : Bytes) : Type 0 where
  pub message : Nsbm
  pub parsed : os.parse wire ≡ some message
  pub manifest : is_some message.manifest ≡ true
  pub init : (get_manifest message).op ≡ Operation.init
  pub named : intro_id message ≡ id
  pub not_empty : is_empty id ≡ false

pub record Request : Type 0 where
  pub wire : Bytes
  pub id : Bytes

abbrev pub wires_of : List Request → List Bytes
wires_of [] = []
wires_of (r ∷ rs) = r.wire ∷ wires_of rs

-- An answer for each request of one client.
unfoldable pub answers_for : Bytes → Bytes → List Request → List Bytes
answers_for answer id [] = []
answers_for answer id (r ∷ rs) =
    let rest = answers_for answer id rs in if str_eq r.id id then answer ∷ rest else rest

response_queue-eq : (i j : Bytes) → str_eq (response_queue i) (response_queue j) ≡ str_eq i j
unfolding str_eq
response_queue-eq i j = refl

request_apart : (id : Bytes) → str_eq (response_queue id) config_request ≡ false
unfolding str_eq
request_apart id = refl

apart : (id : Bytes) → str_eq config_request (response_queue id) ≡ false
unfolding str_eq
apart id = refl

module _ {B : Type 0} (os : Os) (amqp : Amqp B) (broker : IsBroker amqp) (d : DaemonRmq)
    (answer : Bytes) (serialized : os.serialize (init_answer_message d) ≡ some answer) where
  -- The others leave the queues alone.
  abbrev pub QuietAll : List (B → B) → Type 0
  QuietAll = All (λ f.
      (b : B) (q : Bytes)
      → (broker.waiting (f b) q ≡ broker.waiting b q) × (broker.bound (f b) q ≡ broker.bound b q))

  answers_one :
      (wire id : Bytes) (b : B)
      → Asks os wire id
      → handle_rmq os amqp d wire b ≡ amqp.publish (response_queue id) answer b
  unfolding handle_rmq
  answers_one wire id b h =
      ground (arith, h.parsed, h.manifest, h.init, h.named, h.not_empty, serialized)

  turns_one :
      (wire id : Bytes) (rest : List Bytes) (b : B)
      → broker.waiting b config_request ≡ wire ∷ rest
      → Asks os wire id
      → turn_rmq os amqp d b
        ≡ amqp.publish (response_queue id) answer (amqp.consume config_request b).1
  unfolding turn_rmq
  turns_one wire id rest b w h = ground (
    arith,
    broker.consume_first b config_request wire rest w,
    answers_one wire id (amqp.consume config_request b).1 h,
  )

  -- The queue of a client after a turn.
  queue_after :
      (asker id : Bytes) (b : B)
      → broker.bound b (response_queue id) ≡ true
      → broker.waiting
          (amqp.publish (response_queue asker) answer (amqp.consume config_request b).1)
          (response_queue id)
        ≡ broker.waiting b (response_queue id) ++ (if str_eq asker id then answer ∷ [] else [])
  queue_after asker id b bound =
      let q = response_queue id in
      let b1 = (amqp.consume config_request b).1 in
      let same : broker.waiting b1 q ≡ broker.waiting b q =
        broker.consume_others b config_request q (apart id) in
      let still : broker.bound b1 q ≡ true = broker.consume_bound b config_request q ∙ bound in
      elim (Bool-cases (str_eq asker id)) [
        | inl e ↦
            let e' = (str_eq_iff asker id).0 e in
            rw (e, e') (broker.publish_waiting b1 q answer still ∙ ap (λ l. l ++ answer ∷ []) same)
        | inr ne ↦ rw ne (
            broker.publish_others b1 (response_queue asker) answer q
              (response_queue-eq asker id ∙ ne)
            ∙ same
            ∙ sym (append-nil (broker.waiting b q)))
      ]

  requests_after :
      (asker wire : Bytes) (rest : List Bytes) (b : B)
      → broker.waiting b config_request ≡ wire ∷ rest
      → broker.waiting
          (amqp.publish (response_queue asker) answer (amqp.consume config_request b).1)
          config_request
        ≡ rest
  requests_after asker wire rest b w =
      broker.publish_others (amqp.consume config_request b).1 (response_queue asker) answer
        config_request (request_apart asker)
      ∙ (broker.consume_first b config_request wire rest w).1

  one_more :
      (id : Bytes) (r : Request) (rs : List Request) (l : List Bytes)
      → (l ++ (if str_eq r.id id then answer ∷ [] else [])) ++ answers_for answer id rs
        ≡ l ++ answers_for answer id (r ∷ rs)
  unfolding answers_for
  one_more id r rs l = elim (Bool-cases (str_eq r.id id)) [
    | inl e ↦ rw e (append_assoc l (answer ∷ []) (answers_for answer id rs))
    | inr ne ↦ rw ne (ap (λ k. k ++ answers_for answer id rs) (append-nil l))
  ]

  -- When INIT requests wait for the daemon, and it has as many turns: each client is answered in its own queue,
  -- once for each request in its name and behind what waited there before, and no request is left. The
  -- requests name their clients, the client's queue is bound, the codec carries the messages, and nobody else touches the
  -- queues meanwhile.
  pub run_loop-answers :
      (rs : List Request) (turns : List (B → B)) (id : Bytes) (b : B)
      → QuietAll turns
      → length turns ≡ length rs
      → All (λ r. Asks os r.wire r.id) rs
      → broker.waiting b config_request ≡ wires_of rs
      → broker.bound b (response_queue id) ≡ true
      → let b' = run_loop os amqp turns d b in
        (broker.waiting b' (response_queue id)
          ≡ broker.waiting b (response_queue id) ++ answers_for answer id rs)
        × (broker.waiting b' config_request ≡ [])
  unfolding run_loop answers_for
  run_loop-answers [] [] id b quiet n asks w bound = (sym (append-nil _), w)
  run_loop-answers [] (f ∷ fs) id b quiet n asks w bound = absurd (omega (arith, n))
  run_loop-answers (r ∷ rs) [] id b quiet n asks w bound = absurd (omega (arith, n))
  run_loop-answers (r ∷ rs) (f ∷ fs) id b quiet n asks w bound =
      let q = response_queue id in
      let b0 = f b in
      let w0 = (quiet.0 b config_request).0 ∙ w in
      let bound0 = (quiet.0 b q).1 ∙ bound in
      let b2 = amqp.publish (response_queue r.id) answer (amqp.consume config_request b0).1 in
      let bound2 : broker.bound b2 q ≡ true =
        broker.publish_bound _ _ answer q ∙ broker.consume_bound b0 config_request q ∙ bound0 in
      let (answered, none_left) =
        run_loop-answers rs fs id b2 quiet.1 (omega (arith, n)) asks.1
          (requests_after r.id r.wire (wires_of rs) b0 w0) bound2 in
      rw (turns_one r.wire r.id (wires_of rs) b0 w0 asks.0) (
        answered
            ∙ ap (λ k. k ++ answers_for answer id rs) (queue_after r.id id b0 bound0)
            ∙ one_more id r rs (broker.waiting b0 q)
            ∙ ap (λ k. k ++ answers_for answer id (r ∷ rs)) (quiet.0 b q).0,
        none_left,
      )
