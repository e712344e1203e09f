-- ===== src/Tests/Omnet.antt =====
-- The theorems of the OMNeT++ applications at concrete data.
use nsb_ci.Prelude.{
  to_string, ℤ, ℕ, pos, Bytes, bytes, true, false, [], ◌∷◌, ◌++◌, none, some, ◌≡◌, refl, arith, ◌<◌,
  ◌^◌, length, ◌≢◌, ◌↔◌,
}
use nsb_ci.Message.{entry_exists}
use nsb_ci.Daemon.{Outcome, ok, ◌>>=◌}
use nsb_ci.Db.{c_str}
use nsb_ci.Client.Sim.{post}
use nsb_ci.Hosts.{host_name}
use nsb_ci.Omnet.Frame.{write_frame, read_frame}
use nsb_ci.Omnet.Frames.{read_frame-whole_iff}
use nsb_ci.Omnet.Source.{App, Node, Firing, send, run_app}
use nsb_ci.Omnet.Timers.{Ends, run_app-Ends}
use nsb_ci.Omnet.Sink.{Sink}
use nsb_ci.Omnet.Host.{Host, did, send_packet_host, process_packet_host}
use nsb_ci.Omnet.Routing.{IsText, whole_message, send_packet_host-process_packet_host}
use nsb_ci.Tests.Data.{alice, bob, hello}
use nsb_ci.Tests.Client.{no_redis, sim}
use nsb_ci.Tests.Network.{first_host, second_host, answering, got, fetch_any-got, sim-IsReady}

read_frame-whole_iff_example :
    (read_frame (write_frame alice bob hello)
      ≡ ok (record { src_id = alice; dest_id = bob; payload = hello }))
    ↔ ((length alice < 2 ^ 16) × (length bob < 2 ^ 16))
read_frame-whole_iff_example = read_frame-whole_iff alice bob hello

abbrev app : App
app = record {
  num_sent = 0;
  num_received = 0;
  start_time = 1;
  stop_time = some 3;
  dest_addresses = bob ∷ [];
  timer = some (send, 1);
  socket_open = true;
}

abbrev pub node : Node (Unit {0})
node = record { app = app; client = sim; db = tt; asked = []; packets = [] }

abbrev pub anywhere : Bytes → Outcome Bytes
anywhere name = ok (bytes "10.0.0.2")

abbrev tick : Firing
tick = record { response = 1 ∷ []; interval = 1 }

run_app-Ends_example :
    (n' : Node (Unit {0})) × (run_app answering no_redis anywhere
        (pos 5000)
        (tick ∷ tick ∷ tick ∷ [])
        node
      ≡ ok n')
    × Ends 3 node n'
run_app-Ends_example =
    run_app-Ends answering no_redis anywhere (pos 5000) 3 (tick ∷ tick ∷ tick ∷ []) node
      (λ name. (bytes "10.0.0.2", refl)) sim-IsReady (omega arith, (omega arith, (omega arith, tt)))
      refl (omega arith) (omega arith)

abbrev pub sink : Sink
sink = record {
  num_received = 0;
  start_time = 1;
  stop_time = none;
  timer = none;
  socket_open = true;
  in_group = false;
}

abbrev host : Bytes → Host (Unit {0})
host id = record {
  host_id = id;
  out_gates = 2;
  client = sim;
  db = tt;
  send_interval = 1;
  timer = 0;
  to_daemon = [];
  left = [];
}

texts : IsText got.result
unfolding c_str
texts = record { source = refl; destination = refl; payload = refl }

send_packet_host-process_packet_host_example :
    (send_packet_host answering no_redis (1 ∷ []) (host first_host)
      ≡ ok (record (did got (host first_host)) {
        left = [] ++ record { gate = 1; message = whole_message got.result } ∷ [];
      }))
    × ((i : ℕ) (tms : ℤ) (k : Host (Unit {0}))
        → k.host_id ≡ host_name i
        → 1 < k.out_gates
        → (i ≡ 1
            → process_packet_host answering no_redis tms (whole_message got.result) k ≡ (
                post answering no_redis tms first_host second_host hello k.client k.db >>= λ d'.
                ok (did d' k)))
          × (i ≢ 1
              → process_packet_host answering no_redis tms (whole_message got.result) k
                ≡ ok (record k {
                  left = k.left ++ record { gate = 1; message = whole_message got.result } ∷ [];
                })))
unfolding entry_exists to_string
send_packet_host-process_packet_host_example =
    send_packet_host-process_packet_host answering no_redis 1 (1 ∷ []) (host first_host) got
      fetch_any-got refl texts refl (omega arith) (omega arith)
