-- ===== src/Unified/Backends.antt =====
-- `SocketBackend` of cpp/rabbit/src/NSBUnified.cpp, over what the system calls return. The results of
-- `setsockopt` and `fcntl` are not looked at.
use nsb_ci.Prelude.{
  pos, int_eq, is_negative, Bytes, Bool, true, false, List, [], ◌∷◌, ◌++◌, Option, none, some,
  if◌then◌else◌,
}
use nsb_ci.Daemon.{Outcome, ok, thrown, ◌>>=◌}
use nsb_ci.Daemon.Server.{join}
use nsb_ci.Client.{Channel}
use nsb_ci.Socket.Transfer.{SendResult, Wait, select_error, timed_out, ready, send_message}
use nsb_ci.Socket.Connect.{
  Call, opened, closed, shut_down, Attempt, Conns, Found, connected, gave_up, ran_out, conn_at,
  channels,
}

pub record SocketBackend : Type 0 where
  pub conns : Conns
  pub is_closed : Bool

-- The attempts for one channel.
unfoldable pub try_socket : List Attempt → Found × List Call
try_socket [] = (ran_out, [])
try_socket (a ∷ rest) =
    let (found, calls) = try_socket rest in
    if is_negative a.socket
    then (gave_up, [])
    else if int_eq a.connect (pos 0)
    then (connected a.socket, opened a.socket ∷ [])
    else (found, opened a.socket ∷ closed a.socket ∷ calls)

-- The loop over the channels, with the calls that were made. A channel that is not connected makes the
-- constructor throw.
unfoldable pub connect_sockets :
    (Channel → List Attempt) → List Channel → Conns → Outcome Conns × List Call
unfolding try_socket
connect_sockets tries [] conns = (ok conns, [])
connect_sockets tries (ch ∷ chs) conns =
    let (found, calls) = try_socket (tries ch) in
    elim found [
      | connected fd ↦
          let (result, later) = connect_sockets tries chs (conns ++ (ch, fd) ∷ []) in
          (result, calls ++ later)
      | _ ↦ (thrown, calls)
    ]

-- The constructor.
unfoldable pub new_socket_backend : (Channel → List Attempt) → Outcome SocketBackend × List Call
unfolding connect_sockets
new_socket_backend tries =
    let (result, calls) = connect_sockets tries channels [] in
    (result >>= λ conns. ok (record { conns = conns; is_closed = false }), calls)

abbrev pub close_calls : Conns → List Call
close_calls [] = []
close_calls ((ch, fd) ∷ conns) = shut_down fd ∷ closed fd ∷ close_calls conns

-- `close`, which does nothing the second time.
unfoldable pub close_backend : SocketBackend → SocketBackend × List Call
close_backend b =
    if b.is_closed then (b, []) else (record { conns = []; is_closed = true }, close_calls b.conns)

-- `sendMsg`: what reaches the system, and whether the call returned; `none` while it is in its loop.
unfoldable pub send_msg :
    SocketBackend → Channel → List SendResult → Bytes → Bytes × Option (Outcome (Unit {0}))
unfolding conn_at send_message
send_msg b ch rs message = elim (conn_at ch b.conns) [
  | ok fd ↦
      let t = send_message rs message in
      (
        t.delivered,
        elim t.returned [ none ↦ none | some n ↦ some (if is_negative n then thrown else ok tt) ],
      )
  | _ ↦ ([], some thrown)
]

-- `recvMsg`: one `select`, and everything that can be read then; `none` for false.
unfoldable pub recv_msg : SocketBackend → Channel → Wait → Outcome (Option Bytes)
unfolding conn_at join
recv_msg b ch select_error = conn_at ch b.conns >>= λ fd. ok none
recv_msg b ch timed_out = conn_at ch b.conns >>= λ fd. ok none
recv_msg b ch (ready []) = conn_at ch b.conns >>= λ fd. ok none
recv_msg b ch (ready (p ∷ ps)) = conn_at ch b.conns >>= λ fd. ok (some (join (p ∷ ps)))
