-- ===== src/Tests/Socket.antt =====
-- The socket interface's theorems at concrete data.
use nsb_ci.Prelude.{ℤ, ℕ, pos, negsuc, List, [], ◌∷◌, ◌++◌, some, false, ◌≡◌, refl, arith}
use nsb_ci.Daemon.{ok}
use nsb_ci.Client.{Channel}
use nsb_ci.Socket.Transfer.{accepted, again, send_message}
use nsb_ci.Socket.Sending.{send_message-returns}
use nsb_ci.Socket.Connect.{
  Attempt, Try, Call, opened, closed, Conns, connect_to_server, close_connection, channels,
}
use nsb_ci.Socket.Descriptors.{after, onto, connect_to_server-after}
use nsb_ci.Socket.Closing.{close_connection-after}
use nsb_ci.Tests.Data.{hello}

send_message-returns_example :
    send_message (accepted 2 ∷ again ∷ accepted 3 ∷ []) hello
    ≡ record { delivered = hello; returned = some (pos 0) }
send_message-returns_example =
    send_message-returns (accepted 2 ∷ again ∷ accepted 3 ∷ []) hello (omega arith)
      ((λ e. cc), ((λ e. cc), ((λ e. cc), tt))) (omega arith)

abbrev attempt : ℕ → ℤ → Attempt
attempt fd connect = record {
  socket = pos fd;
  reuse_address = pos 0;
  no_delay = pos 0;
  keep_alive = pos 0;
  connect = connect;
}

-- The second channel needs two attempts.
abbrev tries : Channel → Try
tries Channel.ctrl = record { attempts = attempt 3 (pos 0) ∷ []; late = false }
tries Channel.send = record {
  attempts = attempt 4 (negsuc 0) ∷ attempt 5 (pos 0) ∷ [];
  late = false;
}
tries Channel.recv = record { attempts = attempt 6 (pos 0) ∷ []; late = false }

abbrev conns : Conns
conns = (Channel.ctrl, pos 3) ∷ (Channel.send, pos 5) ∷ (Channel.recv, pos 6) ∷ []

abbrev calls : List Call
calls = opened (pos 3) ∷ opened (pos 4) ∷ closed (pos 4) ∷ opened (pos 5) ∷ opened (pos 6) ∷ []

connect_to_server-after_example : after calls [] ≡ onto conns []
unfolding connect_to_server
connect_to_server-after_example =
    connect_to_server-after tries (λ fd. pos 2) (λ fd. pos 0) (pos 0) conns calls refl

close_connection-after_example :
    (closes : List Call) × (close_connection conns channels ≡ ok closes)
    × (after (calls ++ closes) [] ≡ [])
unfolding connect_to_server
close_connection-after_example =
    close_connection-after tries (λ fd. pos 2) (λ fd. pos 0) conns calls refl
