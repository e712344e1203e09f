-- ===== src/Omnet/Journey.antt =====
-- A payload from one application client to another through the daemon and a network of OMNeT++ hosts:
-- `nsbBasicApp` fetches it and sends it in a packet, and `nsbAppSink` posts what the packet says.
use nsb_ci.Prelude.{
  ℤ, ◌<◌, ◌^◌, Bytes, true, false, List, [], ◌∷◌, Option, none, some, ◌≡◌, refl, All, length, drop,
  drop-length,
}
use nsb_ci.Message.{Originator, MessageEntry, entry_exists}
use nsb_ci.Daemon.{Daemon, Os, Outcome, ok, ◌>>=◌}
use nsb_ci.Daemon.Queues.{to_destination}
use nsb_ci.Db.{Redis}
use nsb_ci.Client.{Client}
use nsb_ci.Client.Relay.{IsPlain, carried}
use nsb_ci.Client.Journey.{Ends}
use nsb_ci.Client.Homeward.{HomeWires, take_out, post_plain, take_out-posted}
use nsb_ci.Client.Next.{
  Turns, OutWires, put_in, ask_on, put_in-holding, ask_on-holding, fetch_any-carried,
}
use nsb_ci.Omnet.Source.{Node, Packet, packet_of, send_packet}
use nsb_ci.Omnet.Sink.{Sink, process_packet}
use nsb_ci.Omnet.Crossing.{process_packet-packet_of, sends_one}

module _ {S : Type 0} (os : Os) (r : Redis S) where
  -- The first packet that arrives is processed, and the application client takes out what is there for it.
  unfoldable pub arrive :
      ℤ
      → List Packet
      → Sink
      → Client
      → Client
      → Ends
      → S
      → Daemon
      → Outcome (Option (S × Daemon × MessageEntry))
  arrive tms [] k c peer ends s d = ok none
  arrive tms (p ∷ ps) k c peer ends s d = do
    (out, k') ← process_packet os r tms p.bytes k c s
    t ← take_out os r out peer ends.posts ends.receives d
    ok (some t)

  -- `app` sends to `peer`; the node asks the daemon, and the packets that it sends then reach the sink.
  unfoldable pub over_packets :
      (Bytes → Outcome Bytes)
      → ℤ
      → ℤ
      → ℤ
      → Bytes
      → Client
      → Node S
      → Sink
      → Client
      → Client
      → Ends
      → Daemon
      → Outcome (Option (S × Daemon × MessageEntry))
  over_packets resolve port tms tms' payload app n k c peer ends d = do
    (s', d') ← put_in os r tms peer.client_id payload app ends.sends n.db d
    (d'', response) ← ask_on os r n.client ends.fetches d'
    n' ← send_packet os r resolve port response (record n { db = s' })
    arrive tms' (drop (length n.packets) n'.packets) k c peer ends n'.db d''

  arrive-one :
      (tms : ℤ) (address src payload : Bytes) (port : ℤ) (k : Sink) (c peer : Client) (ends : Ends)
      (s : S) (d : Daemon)
      → c.origin ≡ some Originator.sim_client
      → peer.origin ≡ some Originator.app_client
      → IsPlain c.cfg
      → IsPlain peer.cfg
      → IsPlain d.cfg
      → entry_exists (carried src peer.client_id payload) ≡ true
      → length payload < 2 ^ 31
      → length src < 2 ^ 16
      → length peer.client_id < 2 ^ 16
      → All (λ e. to_destination peer.client_id e ≡ false) d.rx_buffer
      → HomeWires os r d src peer.client_id payload
      → arrive tms
          (packet_of (carried src peer.client_id payload) address port ∷ [])
          k
          c
          peer
          ends
          s
          d
        ≡ ok (some (s, d, carried src peer.client_id payload))
  unfolding arrive
  arrive-one tms address src payload port k c peer ends s d og og' c_plain p_plain d_plain exists
        short few few' others w =
      rw
        (
          process_packet-packet_of os r tms (carried src peer.client_id payload) address port k c s
              few few',
          post_plain os r tms src peer.client_id payload w.posts c s og c_plain.no_db
              w.posts_encodes,
          take_out-posted os r src payload c peer ends.posts ends.receives s d w og' p_plain d_plain
              exists short others,
        )
        refl

  -- In PULL mode, without a database, and where the codec carries the six messages: what one application client
  -- sends to another is received by the other, with the source, destination, payload and length that it was sent
  -- with, if neither name nor the payload is empty, the names are shorter than 2 ^ 16 bytes, the length fits an
  -- int, and the name of the destination resolves. The node's client is next in turn for the message, nothing
  -- else waits for the destination, and its packet reaches the sink. The daemon and the database are left as they
  -- were.
  pub over_packets_lem :
      (resolve : Bytes → Outcome Bytes) (port tms tms' : ℤ) (payload address : Bytes) (app : Client)
      (n : Node S) (k : Sink) (c peer : Client) (ends : Ends) (d : Daemon)
      → app.origin ≡ some Originator.app_client
      → n.client.origin ≡ some Originator.sim_client
      → c.origin ≡ some Originator.sim_client
      → peer.origin ≡ some Originator.app_client
      → IsPlain app.cfg
      → IsPlain n.client.cfg
      → IsPlain c.cfg
      → IsPlain peer.cfg
      → IsPlain d.cfg
      → entry_exists (carried app.client_id peer.client_id payload) ≡ true
      → length payload < 2 ^ 31
      → length app.client_id < 2 ^ 16
      → length peer.client_id < 2 ^ 16
      → resolve peer.client_id ≡ ok address
      → Turns app.client_id n.client d
      → All (λ e. to_destination peer.client_id e ≡ false) d.rx_buffer
      → OutWires os r n.client d app.client_id peer.client_id payload
      → HomeWires os r d app.client_id peer.client_id payload
      → over_packets resolve port tms tms' payload app n k c peer ends d
        ≡ ok (some (n.db, d, carried app.client_id peer.client_id payload))
  unfolding over_packets
  over_packets_lem resolve port tms tms' payload address app n k c peer ends d og og' og'' og''' a m
        m' b d_plain exists short few few' resolves turns others out home =
      let src = app.client_id in
      let dest = peer.client_id in
      let e = carried src dest payload in
      let got =
        fetch_any-carried os r src dest payload out.asks out.answers d n.client n.db og' m d_plain
          out.asks_encodes out.answers_encodes in
      rw
        (
          put_in-holding os r tms dest payload out.sends app ends.sends n.db d og a d_plain short
              out.sends_encodes,
          ask_on-holding os r out.asks out.answers e n.client ends.fetches d og' m turns exists
              out.asks_encodes out.answers_encodes,
          sends_one os r r resolve port out.answers address n _ got exists resolves,
          drop-length n.packets (packet_of e address port ∷ []),
          arrive-one tms' address src payload port k c peer ends n.db d og'' og''' m' b d_plain
              exists short few few' others home,
        )
        refl
