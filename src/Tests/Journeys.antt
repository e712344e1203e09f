-- ===== src/Tests/Journeys.antt =====
-- A payload on its way through a simulated network, at concrete data.
use nsb_ci.Prelude.{to_string, pos, bytes, List, [], ◌∷◌, some, ◌≡◌, refl, arith}
use nsb_ci.Message.{Nsbm, Originator, SimulatorMode, new_config, entry_exists}
use nsb_ci.Daemon.{msg_set_payload_obj, Os, ok}
use nsb_ci.Client.{Client}
use nsb_ci.Client.Relay.{carried, IsPlain}
use nsb_ci.Client.Sim.{fetch_message}
use nsb_ci.Client.Outward.{send_message, fetched_message}
use nsb_ci.Client.Homeward.{HomeWires, post_message, received_message}
use nsb_ci.Client.Homeward
use nsb_ci.Client.Next.{ask_next, alone, own, OutWires}
use nsb_ci.Daemon.Server.{join}
use nsb_ci.Ns3.Tcp.{write_loop, after_loop, write_until_full, write_calls}
use nsb_ci.Ns3.Trip.{Network, Carries, over_tcp}
use nsb_ci.Ns3.Journey.{over_tcp_lem}
use nsb_ci.Omnet.Journey.{over_packets, over_packets_lem}
use nsb_ci.Tests.Codec.{tag_of, codec_of, encoded}
use nsb_ci.Tests.Data.{hello, empty_daemon}
use nsb_ci.Tests.Client.{client_named, no_redis, ends, plain, sim}
use nsb_ci.Tests.Network.{first_host, second_host}
use nsb_ci.Tests.Omnet.{anywhere, node, sink}
use nsb_ci.Tests.Ns3.{anyone, calls, reads}

abbrev app : Client
app = client_named first_host Originator.app_client

abbrev peer : Client
peer = client_named second_host Originator.app_client

-- The simulator client of the node `first_host`.
abbrev own_sim : Client
own_sim = record (client_named first_host Originator.sim_client) {
  cfg = record new_config { simulator_mode = SimulatorMode.per_node };
}

abbrev messages : Client → List Nsbm
messages sim =
    send_message first_host second_host hello
    ∷ ask_next sim
    ∷ fetched_message empty_daemon first_host second_host hello
    ∷ post_message first_host second_host hello
    ∷ Homeward.ask_for second_host
    ∷ received_message empty_daemon first_host second_host hello
    ∷ []

abbrev codec : Client → Os
codec sim = codec_of tag_of (messages sim)

abbrev home_wires :
    (sim : Client) → HomeWires (codec sim) no_redis empty_daemon first_host second_host hello
unfolding msg_set_payload_obj
home_wires sim = record {
  posts = 3 ∷ [];
  asks = 4 ∷ [];
  answers = 5 ∷ [];
  posts_encodes = encoded tag_of (messages sim) _ _ refl refl;
  asks_encodes = encoded tag_of (messages sim) _ _ refl refl;
  answers_encodes = encoded tag_of (messages sim) _ _ refl refl;
}

own_sim-IsPlain : IsPlain own_sim.cfg
own_sim-IsPlain = record { pull = refl; no_db = refl }

out_wires : OutWires (codec own_sim) no_redis own_sim empty_daemon first_host second_host hello
unfolding fetch_message msg_set_payload_obj
out_wires = record {
  sends = 0 ∷ [];
  asks = 1 ∷ [];
  answers = 2 ∷ [];
  sends_encodes = encoded tag_of (messages own_sim) _ _ refl refl;
  asks_encodes = encoded tag_of (messages own_sim) _ _ refl refl;
  answers_encodes = encoded tag_of (messages own_sim) _ _ refl refl;
}

over_packets_lem_example :
    over_packets
      (codec own_sim)
      no_redis
      anywhere
      (pos 5000)
      (pos 0)
      (pos 1)
      hello
      app
      (record node { client = own_sim })
      sink
      sim
      peer
      ends
      empty_daemon
    ≡ ok (some (tt, empty_daemon, carried first_host second_host hello))
unfolding entry_exists
over_packets_lem_example =
    over_packets_lem (codec own_sim) no_redis anywhere (pos 5000) (pos 0) (pos 1) hello
      (bytes "10.0.0.2") app (record node { client = own_sim }) sink sim peer ends empty_daemon refl
      refl refl refl plain own_sim-IsPlain plain plain plain refl (omega arith) (omega arith)
      (omega arith) refl (own refl refl tt) tt out_wires (home_wires own_sim)

tcp_wires : OutWires (codec sim) no_redis sim empty_daemon first_host second_host hello
unfolding fetch_message msg_set_payload_obj
tcp_wires = record {
  sends = 0 ∷ [];
  asks = 1 ∷ [];
  answers = 2 ∷ [];
  sends_encodes = encoded tag_of (messages sim) _ _ refl refl;
  asks_encodes = encoded tag_of (messages sim) _ _ refl refl;
  answers_encodes = encoded tag_of (messages sim) _ _ refl refl;
}

-- The two nodes of the test are numbered 0 and 1.
abbrev network : Network
network = record { connects = anyone; owner = λ ip. 1; writes = calls; cuts = λ bs. reads }

carries : Carries network 0 1 (carried first_host second_host hello)
unfolding write_calls write_until_full write_loop after_loop join
carries = record {
  up = refl;
  owned = refl;
  takes = ((omega arith, tt), ((omega arith, tt), tt));
  ended = refl;
  filled = (((λ e. cc), tt), (tt, (((λ e. cc), ((λ e. cc), tt)), tt)));
  whole = refl;
}

over_tcp_lem_example :
    over_tcp (codec sim) no_redis 2 network (pos 0) (pos 1) hello app sim peer ends tt empty_daemon
    ≡ ok (some (tt, empty_daemon, carried first_host second_host hello))
unfolding to_string
over_tcp_lem_example =
    over_tcp_lem (codec sim) no_redis 2 0 1 network (pos 0) (pos 1) hello app sim peer ends tt
      empty_daemon refl refl refl refl refl plain plain plain plain (omega arith) (omega arith)
      (omega arith) (omega arith) (omega arith) carries (alone refl refl) tt tcp_wires
      (home_wires sim)
