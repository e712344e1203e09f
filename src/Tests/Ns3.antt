-- ===== src/Tests/Ns3.antt =====
-- The theorems of the ns-3 programs at concrete data.
use nsb_ci.Prelude.{
  ℕ, pos, ◌++◌, Bytes, Bool, true, false, List, [], ◌∷◌, none, some, ◌≡◌, refl, ◌≢◌, ◌↔◌, arith,
  to_string,
}
use nsb_ci.Message.{MessageEntry, entry_exists}
use nsb_ci.Daemon.{ok, thrown, ◌>>=◌}
use nsb_ci.Daemon.Server.{join}
use nsb_ci.Client.Relay.{carried}
use nsb_ci.Client.Sim.{post}
use nsb_ci.Hosts.{host_name}
use nsb_ci.Ns3.Tcp.{
  Chunk, PendingTransfer, caught, write_loop, after_loop, write_until_full, write_calls,
  receive_calls, tcp_close,
}
use nsb_ci.Ns3.Writing.{Moves}
use nsb_ci.Ns3.Streams.{sender_of, write_calls_lem, write_calls-ends}
use nsb_ci.Ns3.Forward.{
  node_address, transfer_of, forward_entry, connected, process_queued, heard, turn, Step,
}
use nsb_ci.Ns3.Crossing.{tcp_close-forward_entry}
use nsb_ci.Ns3.Queued.{run_and_drain, run_and_drain-process_queued}
use nsb_ci.Ns3.Udp.{poll_udp, receive_packet}
use nsb_ci.Ns3.Misdelivery.{datagram, receive_packet-poll_udp}
use nsb_ci.Tests.Data.{hello}
use nsb_ci.Tests.Client.{no_redis, sim}
use nsb_ci.Tests.Network.{first_host, second_host, answering}

abbrev entry : MessageEntry
entry = carried first_host second_host hello

-- Three bytes and then two.
abbrev chunk : ℕ → Chunk
chunk n = record { space = 3; result = some n }

abbrev pub calls : List (List Chunk)
calls = (chunk 3 ∷ []) ∷ (chunk 2 ∷ []) ∷ []

abbrev transfer : PendingTransfer
transfer = transfer_of entry

write_calls_lem_example :
    let s = write_calls calls (sender_of transfer) in
    ((later : Bytes) × (hello ≡ s.written ++ later))
    × ((s.socket_open ≡ false) ↔ (s.written ≡ hello))
unfolding write_calls write_until_full write_loop after_loop
write_calls_lem_example =
    write_calls_lem hello (omega arith) calls transfer refl refl (omega arith)
      ((omega arith, tt), ((omega arith, tt), tt))

-- One byte in each call.
abbrev bytewise : List (List Chunk)
bytewise = (chunk 1 ∷ []) ∷ (chunk 1 ∷ []) ∷ (chunk 1 ∷ []) ∷ (chunk 1 ∷ []) ∷ (chunk 1 ∷ []) ∷ []

moves : Moves (chunk 1 ∷ [])
moves = (omega arith, 1, refl, omega arith)

write_calls-ends_example :
    let s = write_calls bytewise (sender_of transfer) in
    (s.socket_open ≡ false) × (s.written ≡ hello)
unfolding write_calls write_until_full write_loop after_loop
write_calls-ends_example =
    write_calls-ends hello (omega arith) bytewise transfer refl refl (omega arith)
      (
        (omega arith, tt),
        ((omega arith, tt), ((omega arith, tt), ((omega arith, tt), ((omega arith, tt), tt)))),
      )
      (moves, (moves, (moves, (moves, (moves, tt))))) (omega arith)

abbrev pub anyone : ℕ → Bytes → Bool
anyone node ip = true

-- The packets as they arrive at the other node.
abbrev pub reads : List (List Bytes)
reads = ((104 ∷ 101 ∷ []) ∷ []) ∷ [] ∷ ((108 ∷ []) ∷ (108 ∷ 111 ∷ []) ∷ []) ∷ []

tcp_close-forward_entry_example :
    (forward_entry 2 anyone entry ≡ ok (connected 0 (node_address 1) transfer))
    × ((receive_calls 1 (node_address 0) reads none >>= λ b.
          tcp_close answering no_redis (pos 7) b sim tt)
        ≡ caught (post answering no_redis (pos 7) first_host second_host hello sim tt))
unfolding write_calls write_until_full write_loop after_loop join to_string
tcp_close-forward_entry_example =
    tcp_close-forward_entry answering no_redis 2 0 1 anyone entry calls reads (pos 7) sim tt refl
      refl (omega arith) (omega arith) (omega arith) refl (omega arith) (omega arith)
      ((omega arith, tt), ((omega arith, tt), tt)) refl
      (((λ e. cc), tt), (tt, (((λ e. cc), ((λ e. cc), tt)), tt))) refl

abbrev steps : List Step
steps = heard (ok entry) ∷ heard (ok entry) ∷ turn ∷ heard (ok entry) ∷ turn ∷ heard thrown ∷ []

run_and_drain-process_queued_example :
    run_and_drain 2 anyone steps [] ≡ process_queued 2 anyone (entry ∷ entry ∷ entry ∷ [])
unfolding entry_exists
run_and_drain-process_queued_example =
    run_and_drain-process_queued 2 anyone steps [] (tt, (tt, (tt, (tt, (tt, (tt, tt))))))

receive_packet-poll_udp_example :
    (poll_udp 2 entry ≡ ok (some (datagram 0 (node_address 0) hello)))
    × (receive_packet answering no_redis (pos 7) 0 (node_address 0) hello sim tt
        ≡ post answering no_redis (pos 7) first_host (host_name 0) hello sim tt)
    × (host_name 0 ≢ second_host)
unfolding entry_exists to_string
receive_packet-poll_udp_example =
    receive_packet-poll_udp answering no_redis 2 0 0 entry (pos 7) sim tt refl refl refl
      (omega arith) (omega arith)
