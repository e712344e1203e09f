-- ===== src/Ns3/Journey.antt =====
-- The theorem on a payload that goes through the nodes of examples/ns3/nsb-testing-tcp.cc.
use nsb_ci.Prelude.{
  ℕ, ℤ, ◌+◌, ◌<◌, ◌^◌, Bytes, Bool, true, false, [], ◌∷◌, none, some, ◌≡◌, refl, All, length, ◌∙◌,
  sym, arith,
}
use nsb_ci.Message.{Originator, MessageEntry, entry_exists}
use nsb_ci.Daemon.{Daemon, Os, ok, ◌>>=◌}
use nsb_ci.Daemon.Queues.{to_destination}
use nsb_ci.Db.{Redis}
use nsb_ci.Client.{Client}
use nsb_ci.Client.Relay.{IsPlain, carried}
use nsb_ci.Client.Journey.{Ends}
use nsb_ci.Client.Homeward.{HomeWires, post_plain, take_out-posted}
use nsb_ci.Client.Next.{Turns, OutWires, put_in-holding, ask_on-holding, fetch_any-carried}
use nsb_ci.Hosts.{host_name}
use nsb_ci.Ns3.Tcp.{write_calls, receive_calls, tcp_close}
use nsb_ci.Ns3.Forward.{
  Forwarded, connected, node_address, transfer_of, forward_entry, poll_to_fetch,
}
use nsb_ci.Ns3.Streams.{sender_of, write_calls_lem}
use nsb_ci.Ns3.Crossing.{tcp_close-forward_entry}
use nsb_ci.Ns3.Trip.{Carries, Network, bind_assoc, over_tcp, polled, taken_out, transfers}

module _ {S : Type 0} (os : Os) (r : Redis S) where
  transfers-connected :
      (net : Network) (i j : ℕ) (e : MessageEntry) (tms : ℤ) (sim peer : Client) (ends : Ends)
      (s : S) (d : Daemon)
      → Carries net i j e
      → (write_calls net.writes (sender_of (transfer_of e))).written ≡ e.payload_obj
      → transfers os r net tms
          (some (connected i (node_address j) (transfer_of e)))
          sim
          peer
          ends
          s
          d
        ≡ (receive_calls j (node_address i) (net.cuts e.payload_obj) none
            >>= (λ b. tcp_close os r tms b sim s)
            >>= λ out. taken_out os r out peer ends d)
  unfolding transfers
  transfers-connected net i j e tms sim peer ends s d h written =
      rw (h.ended, h.owned, written)
        (bind_assoc (receive_calls j (node_address i) (net.cuts e.payload_obj) none)
          (λ b. tcp_close os r tms b sim s) (λ out. taken_out os r out peer ends d))

  polls :
      (nodes : ℕ) (connects : ℕ → Bytes → Bool) (e : MessageEntry) (f : Forwarded)
      → entry_exists e ≡ true
      → forward_entry nodes connects e ≡ ok f
      → poll_to_fetch nodes connects (ok e) ≡ ok (some f)
  unfolding poll_to_fetch
  polls nodes connects e f exists h = rw (exists, h) refl

  hosts_exist :
      (i j : ℕ) (src dest payload : Bytes)
      → src ≡ host_name i
      → dest ≡ host_name j
      → 0 < length payload
      → entry_exists (carried src dest payload) ≡ true
  unfolding entry_exists
  hosts_exist i j src dest [] from to h = absurd (omega arith)
  hosts_exist i j src dest (c ∷ payload) from to h = rw (from, to) refl

  forwards :
      (nodes i j : ℕ) (net : Network) (src payload : Bytes) (tms : ℤ) (sim peer : Client)
      (ends : Ends) (s : S) (d : Daemon)
      → sim.origin ≡ some Originator.sim_client
      → peer.origin ≡ some Originator.app_client
      → src ≡ host_name i
      → peer.client_id ≡ host_name j
      → IsPlain sim.cfg
      → IsPlain peer.cfg
      → IsPlain d.cfg
      → i < nodes
      → i + 1 < 2 ^ 31
      → j + 1 < 2 ^ 31
      → 0 < length payload
      → length payload < 2 ^ 31
      → entry_exists (carried src peer.client_id payload) ≡ true
      → Carries net i j (carried src peer.client_id payload)
      → All (λ e. to_destination peer.client_id e ≡ false) d.rx_buffer
      → HomeWires os r d src peer.client_id payload
      → (poll_to_fetch nodes net.connects (ok (carried src peer.client_id payload)) >>= λ f.
          transfers os r net tms f sim peer ends s d)
        ≡ ok (some (s, d, carried src peer.client_id payload))
  unfolding taken_out
  forwards nodes i j net src payload tms sim peer ends s d og og' from named m b k node small small'
        some_bytes short exists h others w =
      let e = carried src peer.client_id payload in
      let written =
        (write_calls_lem payload (omega arith) net.writes (transfer_of e) refl refl some_bytes
            h.takes).1.0
          h.ended in
      let (begins, closes) =
        tcp_close-forward_entry os r nodes i j net.connects e net.writes (net.cuts payload) tms sim
          s from named node small small' h.up some_bytes (omega arith) h.takes h.ended h.filled
          (h.whole ∙ sym written) in
      rw
        (
          polls nodes net.connects e _ exists begins,
          transfers-connected net i j e tms sim peer ends s d h written,
          closes,
          post_plain os r tms src peer.client_id payload w.posts sim s og m.no_db w.posts_encodes,
          take_out-posted os r src payload sim peer ends.posts ends.receives s d w og' b k exists
              short others,
        )
        refl

  -- In PULL mode, without a database, and where the codec carries the six messages: what the client of "host" i
  -- sends to the client of "host" j is received by the other, with the source, destination, payload and length
  -- that it was sent with, if the payload is not empty, its length fits an int, there is a node i, and both
  -- numbers and one more fit an int. The simulator client is next in turn for the message, nothing else waits
  -- for the destination, and the network carries the payload from node i to node j. The daemon and the database
  -- are left as they were.
  pub over_tcp_lem :
      (nodes i j : ℕ) (net : Network) (tms tms' : ℤ) (payload : Bytes) (app sim peer : Client)
      (ends : Ends) (s : S) (d : Daemon)
      → app.origin ≡ some Originator.app_client
      → sim.origin ≡ some Originator.sim_client
      → peer.origin ≡ some Originator.app_client
      → app.client_id ≡ host_name i
      → peer.client_id ≡ host_name j
      → IsPlain app.cfg
      → IsPlain sim.cfg
      → IsPlain peer.cfg
      → IsPlain d.cfg
      → i < nodes
      → i + 1 < 2 ^ 31
      → j + 1 < 2 ^ 31
      → 0 < length payload
      → length payload < 2 ^ 31
      → Carries net i j (carried app.client_id peer.client_id payload)
      → Turns app.client_id sim d
      → All (λ e. to_destination peer.client_id e ≡ false) d.rx_buffer
      → OutWires os r sim d app.client_id peer.client_id payload
      → HomeWires os r d app.client_id peer.client_id payload
      → over_tcp os r nodes net tms tms' payload app sim peer ends s d
        ≡ ok (some (s, d, carried app.client_id peer.client_id payload))
  unfolding over_tcp polled
  over_tcp_lem nodes i j net tms tms' payload app sim peer ends s d og og' og'' from to a m b k node
        small small' some_bytes short h turns others out home =
      let src = app.client_id in
      let dest = peer.client_id in
      let exists = hosts_exist i j src dest payload from to some_bytes in
      rw
        (
          put_in-holding os r tms dest payload out.sends app ends.sends s d og a k short
              out.sends_encodes,
          ask_on-holding os r out.asks out.answers (carried src dest payload) sim ends.fetches d og'
              m turns exists out.asks_encodes out.answers_encodes,
          fetch_any-carried os r src dest payload out.asks out.answers d sim s og' m k
              out.asks_encodes out.answers_encodes,
        )
        (forwards nodes i j net src payload tms' sim peer ends s d og' og'' from to m b k node small
          small' some_bytes short exists h others home)
