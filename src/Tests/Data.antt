-- ===== src/Tests/Data.antt =====
-- Messages, clients and daemons that the tests share.
use nsb_ci.Prelude.{ℤ, pos, Bytes, bytes, true, [], ◌∷◌, none, some, str_eq, int_eq, if◌then◌else◌}
use nsb_ci.Message.{
  Nsbm, new_nsbm, Operation, Originator, OpCode, SystemMode, Body, new_config, MessageEntry,
  set_manifest, set_metadata, set_payload, set_src_id, set_dest_id,
}
use nsb_ci.Daemon.{Daemon, Os, ClientDetails}
use nsb_ci.Daemon.Server.{Server, Round, no_connection}

abbrev pub alice : Bytes
alice = bytes "alice"

abbrev pub bob : Bytes
bob = bytes "bob"

abbrev pub hello : Bytes
hello = bytes "hello"

abbrev pub entry : Bytes → Bytes → Bytes → MessageEntry
entry src dest content = record {
  source = src;
  destination = dest;
  payload_obj = content;
  payload_size = pos 5;
}

-- alice sends "hello" to bob
abbrev pub send_hello : Nsbm
send_hello = set_payload hello (
    set_metadata alice bob (pos 5)
      (set_manifest Operation.send Originator.app_client OpCode.message new_nsbm))

abbrev pub post_hello : Nsbm
post_hello = set_payload hello (
    set_metadata alice bob (pos 5)
      (set_manifest Operation.post Originator.sim_client OpCode.message new_nsbm))

abbrev pub fetch_alice : Nsbm
fetch_alice =
    set_src_id alice (set_manifest Operation.fetch Originator.sim_client OpCode.success new_nsbm)

abbrev pub receive_bob : Nsbm
receive_bob =
    set_dest_id bob (set_manifest Operation.receive Originator.app_client OpCode.success new_nsbm)

abbrev pub ping_alice : Nsbm
ping_alice = set_manifest Operation.ping Originator.app_client OpCode.success new_nsbm

abbrev pub init_of : Originator → Bytes → Nsbm
init_of og id = record (set_manifest Operation.init og OpCode.success new_nsbm) {
  body = Body.intro (record {
    identifier = id;
    address = bytes "10.0.0.1";
    ch_ctrl = pos 5001;
    ch_send = pos 5002;
    ch_recv = pos 5003;
  });
}

abbrev pub client_at : Bytes → ℤ → ClientDetails
client_at id fd = record {
  identifier = id;
  address = bytes "10.0.0.1";
  ch_ctrl_port = pos 5001;
  ch_ctrl_fd = pos 5;
  ch_send_port = pos 5002;
  ch_send_fd = pos 6;
  ch_recv_port = pos 5003;
  ch_recv_fd = fd;
}

-- A daemon in PULL mode with three waiting messages.
abbrev pub pulling : Daemon
pulling = record {
  cfg = new_config;
  running = true;
  server_port = pos 65432;
  sim_client_lookup = [];
  app_client_lookup = [];
  fd_lookup = [];
  tx_buffer = entry bob alice hello ∷ entry alice bob hello ∷ entry alice bob (bytes "later") ∷ [];
  rx_buffer = entry bob alice hello ∷ entry alice bob hello ∷ [];
}

abbrev pub empty_daemon : Daemon
empty_daemon = record pulling { tx_buffer = []; rx_buffer = [] }

-- A daemon in PUSH mode with one system-wide simulator, on descriptor 9, and one application, on 8.
abbrev pub pushing : Daemon
pushing = record pulling {
  cfg = record new_config { system_mode = SystemMode.push };
  sim_client_lookup = (bytes "simulator", client_at (bytes "sim") (pos 9)) ∷ [];
  app_client_lookup = (bob, client_at bob (pos 8)) ∷ [];
}

abbrev pub exit_alice : Nsbm
exit_alice = set_manifest Operation.exit Originator.app_client OpCode.success new_nsbm

-- A system where everything succeeds, and three byte strings have a meaning.
abbrev pub os : Os
os = record {
  select_write = λ fd. pos 1;
  fd_isset = λ fd. true;
  malloc = λ n. true;
  byte_size_long = λ m. 2;
  serialize = λ m. some (10 ∷ 0 ∷ []);
  parse = λ wire.
      if str_eq wire (1 ∷ [])
      then some send_hello
      else if str_eq wire (2 ∷ [])
      then some fetch_alice
      else if str_eq wire (3 ∷ [])
      then some exit_alice
      else none;
}

-- A server with two channels.
abbrev pub serving : Server
serving = record { daemon = pulling; server_fd = pos 3; channel_fds = pos 4 ∷ pos 5 ∷ [] }

-- A round in which channel 4 has hung up and channel 5 sends an EXIT.
abbrev pub exit_round : Round
exit_round = record {
  activity = pos 2;
  benign = true;
  fd_isset = λ fd. true;
  pieces = λ fd. if int_eq fd (pos 5) then (3 ∷ []) ∷ [] else [];
  accepted = no_connection;
}
