-- ===== src/Tests/Unified.antt =====
-- The unified client's theorems at concrete data.
use nsb_ci.Prelude.{
  false, ◌∷◌, ℕ, ℤ, negsuc, List, ◌++◌, pos, bytes, true, none, [], ◌≡◌, refl, some, ◌≢◌,
}
use nsb_ci.Message.{Nsbm, get_manifest, Operation, Originator, new_config}
use nsb_ci.Daemon.Dispatch.{response_template}
use nsb_ci.Daemon.Messages.{handle_fetch}
use nsb_ci.Daemon.Answers.{empty_response}
use nsb_ci.Unified.{Unified, socket_backend}
use nsb_ci.Unified.Client.{fetch_message_unified}
use nsb_ci.Unified.Fetching.{handle_fetch-fetch_message_unified}
use nsb_ci.Client.{Channel}
use nsb_ci.Socket.Connect.{Attempt, Call, opened, closed}
use nsb_ci.Socket.Descriptors.{after}
use nsb_ci.Unified.Backends.{SocketBackend, new_socket_backend, close_backend}
use nsb_ci.Unified.Closing.{close_backend-new_socket_backend}
use nsb_ci.Rabbit.{reached, failed_after}
use nsb_ci.Unified.Equivalence.{BackendCall, connect_within, send_on, recv_within, close_it}
use nsb_ci.Unified.Sockets.{Answers, SocketCall, fetch_from}
use nsb_ci.Tests.Network.{first_host}
use nsb_ci.Tests.Data.{bob, hello, pulling}

abbrev simulator : Unified
simulator = record {
  id = bytes "sim";
  host = bytes "localhost";
  backend = socket_backend;
  origin = Originator.sim_client;
  cfg = new_config;
  db = none;
  is_open = true;
}

handle_fetch-fetch_message_unified_example :
    handle_fetch pulling
      (fetch_message_unified new_config.simulator_mode [] simulator)
      response_template
    ≡ (pulling, empty_response Operation.fetch response_template)
handle_fetch-fetch_message_unified_example =
    handle_fetch-fetch_message_unified pulling simulator response_template refl

-- The second channel needs two attempts.
abbrev attempt : ℕ → ℤ → Attempt
attempt fd connect = record {
  socket = pos fd;
  reuse_address = pos 0;
  no_delay = pos 0;
  keep_alive = pos 0;
  connect = connect;
}

abbrev tries : Channel → List Attempt
tries Channel.ctrl = attempt 3 (pos 0) ∷ []
tries Channel.send = attempt 4 (negsuc 0) ∷ attempt 5 (pos 0) ∷ []
tries Channel.recv = attempt 6 (pos 0) ∷ []

abbrev backend : SocketBackend
backend = record {
  conns = (Channel.ctrl, pos 3) ∷ (Channel.send, pos 5) ∷ (Channel.recv, pos 6) ∷ [];
  is_closed = false;
}

abbrev calls : List Call
calls = opened (pos 3) ∷ opened (pos 4) ∷ closed (pos 4) ∷ opened (pos 5) ∷ opened (pos 6) ∷ []

close_backend-new_socket_backend_example :
    (after (calls ++ (close_backend backend).1) [] ≡ [])
    × ((close_backend (close_backend backend).0).1 ≡ [])
unfolding new_socket_backend
close_backend-new_socket_backend_example = close_backend-new_socket_backend tries backend calls refl

abbrev backend_calls : List BackendCall
backend_calls =
    connect_within (pos 5) (failed_after 0 ∷ failed_after 4 ∷ reached ∷ [])
    ∷ send_on Channel.send hello bob
    ∷ recv_within 1 Channel.recv
    ∷ close_it
    ∷ send_on Channel.ctrl hello []
    ∷ []

abbrev IsAnswer : Nsbm → Type 0
IsAnswer m = ((get_manifest m).op ≢ Operation.send) × ((get_manifest m).op ≢ Operation.post)

abbrev asked : SocketCall
asked = fetch_from first_host (pos 3) (λ timeout. some (1 ∷ []))
