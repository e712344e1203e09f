-- ===== src/Tests/Client.antt =====
-- The clients' theorems at concrete data.
use nsb_ci.Prelude.{List, pos, Bytes, bytes, true, [], ◌∷◌, none, some, ◌≡◌, refl, arith}
use nsb_ci.Message.{Nsbm, Operation, Originator, OpCode, new_config, entry_exists}
use nsb_ci.Daemon.{msg_set_payload_obj, Os, ok}
use nsb_ci.Daemon.Init.{init_response, handle_ping}
use nsb_ci.Daemon.Dispatch.{response_template}
use nsb_ci.Db.{Redis}
use nsb_ci.Client.{Client, request}
use nsb_ci.Client.Relay.{IsPlain, carried}
use nsb_ci.Client.Setup.{Surroundings, SockName, running, initialize}
use nsb_ci.Client.Outward
use nsb_ci.Client.Homeward
use nsb_ci.Client.Outward.{send_then_fetch, send_then_fetch_lem, send_message, fetched_message}
use nsb_ci.Client.Homeward.{
  post_then_receive, post_then_receive_lem, post_message, received_message,
}
use nsb_ci.Client.Sim.{fetch_message}
use nsb_ci.Client.Journey.{journey, journey_lem, Ends, Wires}
use nsb_ci.Client.Configured.{initialize-init_response}
use nsb_ci.Tests.Codec.{tag_of, codec_of, encoded}
use nsb_ci.Tests.Data.{alice, bob, hello, empty_daemon}

abbrev pub client_named : Bytes → Originator → Client
client_named id og = record { client_id = id; origin = some og; cfg = new_config; db = none }

abbrev pub app : Client
app = client_named alice Originator.app_client

abbrev pub peer : Client
peer = client_named bob Originator.app_client

abbrev pub sim : Client
sim = client_named (bytes "sim") Originator.sim_client

abbrev ping_message : Nsbm
ping_message = request Operation.ping Originator.app_client OpCode.success

abbrev messages : List Nsbm
messages =
    (send_message alice bob hello
      ∷ Outward.ask_for alice (bytes "sim")
      ∷ fetched_message empty_daemon alice bob hello
      ∷ post_message alice bob hello
      ∷ Homeward.ask_for bob
      ∷ received_message empty_daemon alice bob hello
      ∷ ping_message
      ∷ (init_response empty_daemon true response_template).outgoing
      ∷ (handle_ping empty_daemon ping_message response_template).1.outgoing
      ∷ [])

abbrev codec : Os
codec = codec_of tag_of messages

abbrev pub no_redis : Redis (Unit {0})
no_redis = record {
  err = λ s. true;
  set = λ k v s. s;
  getdel = λ k s. (none, s);
  get = λ k s. (none, s);
}

pub plain : IsPlain new_config
plain = record { pull = refl; no_db = refl }

abbrev wires : Wires codec empty_daemon alice (bytes "sim") bob hello
unfolding fetch_message msg_set_payload_obj
wires = record {
  send_wire = 0 ∷ [];
  fetch_wire = 1 ∷ [];
  fetched_wire = 2 ∷ [];
  post_wire = 3 ∷ [];
  receive_wire = 4 ∷ [];
  received_wire = 5 ∷ [];
  send_encodes = encoded tag_of messages _ _ refl refl;
  fetch_encodes = encoded tag_of messages _ _ refl refl;
  fetched_encodes = encoded tag_of messages _ _ refl refl;
  post_encodes = encoded tag_of messages _ _ refl refl;
  receive_encodes = encoded tag_of messages _ _ refl refl;
  received_encodes = encoded tag_of messages _ _ refl refl;
}

abbrev pub ends : Ends
ends = record { sends = pos 5; fetches = pos 6; posts = pos 7; receives = pos 8 }

journey_lem_example :
    journey codec no_redis (pos 0) (pos 1) hello app sim peer ends tt empty_daemon
    ≡ ok (tt, empty_daemon, carried alice bob hello)
unfolding entry_exists
journey_lem_example =
    journey_lem codec no_redis (pos 0) (pos 1) hello app sim peer ends tt empty_daemon refl refl
      refl plain plain plain plain refl refl (omega arith) tt tt wires

abbrev surroundings : Surroundings (Unit {0})
surroundings = record {
  sockname = λ ch. SockName.inet (pos 5001) (bytes "10.0.0.1");
  redis_connect = λ a p s. s;
  port_before = pos 77;
  num_before = pos 78;
  moved_from = [];
}

initialize-init_response_example :
    (initialize codec no_redis surroundings (7 ∷ []) app tt).0
    ≡ running (record app { cfg = record new_config { db_port = pos 77; db_num = pos 78 } }) tt
unfolding init_response
initialize-init_response_example =
    initialize-init_response no_redis surroundings codec (7 ∷ []) empty_daemon app
      Originator.app_client tt true refl (encoded tag_of messages _ _ refl refl)
