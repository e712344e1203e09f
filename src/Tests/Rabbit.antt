-- ===== src/Tests/Rabbit.antt =====
-- The theorems of the RabbitMQ variant at concrete data.
use nsb_ci.Prelude.{
  ℕ, suc, Bytes, bytes, List, [], ◌∷◌, ◌++◌, Option, none, some, true, false, ◌≡◌, refl, ap, ◌∙◌,
  sym, append-nil, arith, str_eq, str_eq_refl, if◌then◌else◌, if_true, if_false,
}
use nsb_ci.Message.{Nsbm, Operation, Originator, OpCode, Config, new_config, get_manifest}
use nsb_ci.Daemon.{Os, ok}
use nsb_ci.Rabbit.{Amqp, ChannelKind, config_request, response_queue, recv_queue}
use nsb_ci.Rabbit.Listener.{on_wire, listen_on, listen_loop}
use nsb_ci.Rabbit.Listening.{Heard, listen_loop-Heard}
use nsb_ci.Rabbit.Heard.{hear, listen_on-send_all}
use nsb_ci.Rabbit.Serving.{Asks, answers_for, run_loop-answers}
use nsb_ci.Rabbit.Client.{
  ClientRmq, app_kind, EntryRmq, payload_message, build_base, init_message, initialize_rmq,
}
use nsb_ci.Rabbit.Daemon.{new_daemon_rmq, turn_rmq, run_loop}
use nsb_ci.Rabbit.Broker.{IsBroker}
use nsb_ci.Rabbit.Delivery.{send_all}
use nsb_ci.Rabbit.Startup.{init_answer_message, initialize_rmq-turn_rmq, TakesOver}
use nsb_ci.Tests.Codec.{codec_of, encoded}
use nsb_ci.Tests.Data.{alice, bob, hello, os}

abbrev pub Queued : Type 0
Queued = Bytes → List Bytes

abbrev pub front : List Bytes → Option Bytes
front [] = none
front (x ∷ xs) = some x

abbrev pub back : List Bytes → List Bytes
back [] = []
back (x ∷ xs) = xs

abbrev pub put : Bytes → List Bytes → Queued → Queued
put q l b x = if str_eq q x then l else b x

abbrev pub amqp : Amqp Queued
amqp = record {
  declare = λ q b. b;
  publish = λ q body b. put q (b q ++ body ∷ []) b;
  consume = λ q b. (front (b q), put q (back (b q)) b);
  basic_consume = λ q b. b;
  basic_cancel = λ q b. put q [] b;
  delete_queue = λ q b. b;
  delete_exchange = λ b. b;
}

put_same : (q : Bytes) (l : List Bytes) (b : Queued) → put q l b q ≡ l
put_same q l b = if_true (str_eq q q) _ _ (str_eq_refl q)

broker : IsBroker amqp
broker = record {
  waiting = λ b q. b q;
  bound = λ b q. true;
  publish_waiting = λ b q body e. put_same q (b q ++ body ∷ []) b;
  publish_others = λ b q body p e. if_false (str_eq q p) _ _ e;
  publish_bound = λ b q body p. refl;
  consume_first = λ b q body rest e. (ap front e, put_same q (back (b q)) b ∙ ap back e);
  consume_none = λ b q e. (ap front e, put_same q (back (b q)) b ∙ ap back e);
  consume_others = λ b q p e. if_false (str_eq q p) _ _ e;
  basic_consume_waiting = λ b q. refl;
  basic_cancel_loses = λ b q. (b q, sym (ap (λ l. b q ++ l) (put_same q [] b) ∙ append-nil (b q)));
  consume_bound = λ b q p. refl;
}

abbrev client : Bytes → ClientRmq
client id = record {
  id = id;
  host = bytes "localhost";
  kind = app_kind;
  cfg = new_config;
  comms = record {
    id = id;
    connected = true;
    q_ctrl = response_queue id;
    q_send = bytes "nsb.send." ++ id;
    q_recv = recv_queue id;
    listening = false;
  };
}

abbrev tag : Operation → OpCode → ℕ
tag Operation.send c = 0
tag Operation.init OpCode.client_request = 1
tag Operation.init c = 2
tag _ c = 3

abbrev carried : Nsbm
carried = payload_message Operation.send Originator.app_client alice bob hello

abbrev messages : List Nsbm
messages =
    carried
    ∷ init_message os amqp (client alice)
    ∷ init_answer_message new_daemon_rmq
    ∷ build_base Operation.ping app_kind
    ∷ []

abbrev kind : Nsbm → ℕ
kind m = tag (get_manifest m).op (get_manifest m).code

abbrev codec : Os
codec = codec_of kind messages

initialize_rmq-turn_rmq_example :
    (b' : Queued) × (cfg : Config) × TakesOver new_daemon_rmq.cfg cfg
    × (initialize_rmq codec amqp 1 (turn_rmq codec amqp new_daemon_rmq) (client alice) (λ q. [])
        ≡ ok (record (client alice) { cfg = cfg }, b'))
unfolding broker
initialize_rmq-turn_rmq_example =
    initialize_rmq-turn_rmq codec amqp broker new_daemon_rmq (client alice) (1 ∷ []) (2 ∷ []) 0
      (λ q. []) refl refl (λ e. cc) refl refl refl refl (encoded kind messages _ _ refl refl)
      (encoded kind messages _ _ refl refl)

abbrev collect : EntryRmq → List EntryRmq → List EntryRmq
collect e es = es ++ e ∷ []

abbrev still : Queued → Queued
still b = b

listen_on-send_all_example :
    (b' : Queued) × (send_all codec amqp bob (hello ∷ hello ∷ []) (client alice) (λ q. []) ≡ ok b')
    × (let s =
          listen_on amqp
            (on_wire codec collect)
            (still ∷ still ∷ still ∷ [])
            (client bob).comms
            ChannelKind.recv
            (b', []) in
        (s.1 ≡ hear collect alice bob (hello ∷ hello ∷ []) []) × (s.0 (recv_queue bob) ≡ []))
unfolding broker
listen_on-send_all_example =
    listen_on-send_all codec amqp broker collect (client alice) (client bob) bob (λ p. 0 ∷ [])
      (hello ∷ hello ∷ []) (still ∷ still ∷ still ∷ []) (λ q. []) [] refl refl (λ e. cc) refl refl
      (encoded kind messages _ _ refl refl, (encoded kind messages _ _ refl refl, tt))
      ((λ b. refl), ((λ b. refl), ((λ b. refl), tt))) (omega arith)

abbrev waiting_bodies : Queued
waiting_bodies = put (recv_queue bob) ((7 ∷ []) ∷ (8 ∷ []) ∷ []) (λ q. [])

abbrev count_bodies : Bytes → ℕ → ℕ
count_bodies body n = suc n

listen_loop-Heard_example :
    Heard amqp broker count_bodies
      (recv_queue bob)
      1
      ((7 ∷ []) ∷ (8 ∷ []) ∷ [])
      0
      (listen_loop amqp count_bodies (still ∷ []) (recv_queue bob) (waiting_bodies, 0))
unfolding broker str_eq
listen_loop-Heard_example =
    listen_loop-Heard amqp broker count_bodies (recv_queue bob) 1 (still ∷ []) ([] ∷ [])
      (waiting_bodies, 0) ((λ b. sym (append-nil (b (recv_queue bob)))), tt) (omega arith)
      (omega arith)

Asks-alice : Asks codec (1 ∷ []) alice
Asks-alice = record {
  message = init_message os amqp (client alice);
  parsed = refl;
  manifest = refl;
  init = refl;
  named = refl;
  not_empty = refl;
}

abbrev requests : Queued
requests = put config_request ((1 ∷ []) ∷ (1 ∷ []) ∷ []) (λ q. [])

run_loop-answers_example :
    let b' = run_loop codec amqp (still ∷ still ∷ []) new_daemon_rmq requests in
    (b' (response_queue alice) ≡ (2 ∷ []) ∷ (2 ∷ []) ∷ []) × (b' config_request ≡ [])
unfolding broker str_eq answers_for
run_loop-answers_example =
    run_loop-answers codec amqp broker new_daemon_rmq (2 ∷ []) refl
      (record { wire = 1 ∷ []; id = alice } ∷ record { wire = 1 ∷ []; id = alice } ∷ [])
      (still ∷ still ∷ []) alice requests ((λ b q. (refl, refl)), ((λ b q. (refl, refl)), tt)) refl
      (Asks-alice, (Asks-alice, tt)) refl refl
