-- ===== src/Client/Journey.antt =====
-- A payload from `NSBAppClient::send` to `NSBAppClient::receive`: through the daemon to the simulator
-- client, and back through the daemon.
use nsb_ci.Prelude.{ℤ, ◌^◌, ◌<◌, Bytes, true, false, ◌≡◌, some, All, length}
use nsb_ci.Message.{Originator, SimulatorMode, MessageEntry, entry_exists}
use nsb_ci.Daemon.{Daemon, Os, Outcome, ok, ◌>>=◌}
use nsb_ci.Daemon.Queues.{from_source, to_destination}
use nsb_ci.Db.{Redis}
use nsb_ci.Client.{Client}
use nsb_ci.Client.Relay.{Encodes, IsPlain, carried}
use nsb_ci.Client.Outward.{send_message, fetched_message, send_then_fetch, send_then_fetch_lem}
use nsb_ci.Client.Homeward.{
  post_message, received_message, post_then_receive, post_then_receive_lem,
}
use nsb_ci.Client.Outward
use nsb_ci.Client.Homeward

-- The descriptors on which the daemon reads the four requests.
pub record Ends : Type 0 where
  pub sends : ℤ
  pub fetches : ℤ
  pub posts : ℤ
  pub receives : ℤ

-- The texts of the six messages of a journey.
pub record Wires (os : Os) (d : Daemon) (src id dest payload : Bytes) : Type 0 where
  pub send_wire : Bytes
  pub fetch_wire : Bytes
  pub fetched_wire : Bytes
  pub post_wire : Bytes
  pub receive_wire : Bytes
  pub received_wire : Bytes
  pub send_encodes : Encodes os (send_message src dest payload) send_wire
  pub fetch_encodes : Encodes os (Outward.ask_for src id) fetch_wire
  pub fetched_encodes : Encodes os (fetched_message d src dest payload) fetched_wire
  pub post_encodes : Encodes os (post_message src dest payload) post_wire
  pub receive_encodes : Encodes os (Homeward.ask_for dest) receive_wire
  pub received_encodes : Encodes os (received_message d src dest payload) received_wire

module _ {S : Type 0} (os : Os) (r : Redis S) where
  -- The simulator client posts the entry as it has fetched it.
  unfoldable pub journey :
      ℤ
      → ℤ
      → Bytes
      → Client
      → Client
      → Client
      → Ends
      → S
      → Daemon
      → Outcome (S × Daemon × MessageEntry)
  unfolding send_then_fetch post_then_receive
  journey tms tms' payload app sim peer ends s d = do
    (s', d', e) ←
        send_then_fetch os r tms peer.client_id payload app.client_id app sim ends.sends
          ends.fetches s d
    post_then_receive os r tms' e.source e.destination e.payload_obj sim peer ends.posts
        ends.receives s' d'

  -- In PULL mode with a system-wide simulator, without a database, and where the codec carries the six
  -- messages: a payload that one application client sends to another, and that the simulator client
  -- fetches and posts on as it is, is received by the other with the source, destination, payload and
  -- length that it was sent with, if neither name nor the payload is empty, the length fits an int, and
  -- nothing else waits for either name. The daemon and the database are left as they were.
  pub journey_lem :
      (tms tms' : ℤ) (payload : Bytes) (app sim peer : Client) (ends : Ends) (s : S) (d : Daemon)
      → app.origin ≡ some Originator.app_client
      → sim.origin ≡ some Originator.sim_client
      → peer.origin ≡ some Originator.app_client
      → IsPlain app.cfg
      → IsPlain sim.cfg
      → IsPlain peer.cfg
      → IsPlain d.cfg
      → sim.cfg.simulator_mode ≡ SimulatorMode.system_wide
      → entry_exists (carried app.client_id peer.client_id payload) ≡ true
      → length payload < 2 ^ 31
      → All (λ e. from_source app.client_id e ≡ false) d.tx_buffer
      → All (λ e. to_destination peer.client_id e ≡ false) d.rx_buffer
      → Wires os d app.client_id sim.client_id peer.client_id payload
      → journey tms tms' payload app sim peer ends s d
        ≡ ok (s, d, carried app.client_id peer.client_id payload)
  unfolding journey
  journey_lem tms tms' payload app sim peer ends s d og og' og'' a m b k wide exists short out back
        w =
      rw
        (send_then_fetch_lem os r tms peer.client_id payload w.send_wire w.fetch_wire w.fetched_wire
          app sim ends.sends ends.fetches s d og og' a m k wide exists short out w.send_encodes
          w.fetch_encodes w.fetched_encodes)
        (post_then_receive_lem os r tms' app.client_id payload w.post_wire w.receive_wire
          w.received_wire sim peer ends.posts ends.receives s d og' og'' m b k exists short back
          w.post_encodes w.receive_encodes w.received_encodes)
