-- ===== src/Client/KeyedJourney.antt =====
-- The way back in PULL mode with a database, from `NSBSimClient::post` to `NSBAppClient::receive`, and both ways
-- together.
use nsb_ci.Prelude.{
  ℤ, ◌^◌, ◌<◌, ◌≤◌, Bytes, true, false, [], ◌∷◌, some, ◌≡◌, refl, arith, All, length, to_int-small,
  ap,
}
use nsb_ci.Message.{
  Nsbm, Operation, Originator, SimulatorMode, MessageEntry, set_msg_key, entry_exists,
}
use nsb_ci.Daemon.{Daemon, Os, ok, msg_set_payload_obj}
use nsb_ci.Daemon.Messages.{entry_of}
use nsb_ci.Daemon.Queues.{from_source, to_destination}
use nsb_ci.Daemon.Answers.{found_response}
use nsb_ci.Daemon.Dispatch.{response_template}
use nsb_ci.Db.{Redis, Connector, c_str, store, check_out}
use nsb_ci.Db.Payloads.{KeepsData, store-Held, check_out-Held}
use nsb_ci.Client.{Client, Channel, read_answer}
use nsb_ci.Client.App.{outgoing}
use nsb_ci.Client.Sim.{post}
use nsb_ci.Client.Relay.{Encodes, arrived-one}
use nsb_ci.Client.Held.{daemon_holds, daemon_hands}
use nsb_ci.Client.Homeward.{ask_for, take_out, post_then_receive, receive_asks}
use nsb_ci.Client.Journey.{Ends, journey}
use nsb_ci.Client.Keyed.{
  IsStored, keyed, key_message, found_key, key_populated, send_then_fetch-stored,
}
use nsb_ci.Client.Outward

abbrev pub key_post : Bytes → Bytes → Bytes → Bytes → Nsbm
key_post src dest key payload =
    set_msg_key key (outgoing Operation.post Originator.sim_client src dest payload)

entry_of-key_post :
    (d : Daemon) (src dest key payload : Bytes)
    → d.cfg.use_db ≡ true
    → length payload < 2 ^ 31
    → entry_of d.cfg (key_post src dest key payload) ≡ keyed src dest key (length payload)
unfolding entry_of
entry_of-key_post d src dest key payload db short =
    ground (arith, to_int-small (length payload) short)

abbrev pub received_key : Daemon → MessageEntry → Nsbm
received_key d e = (found_response d.cfg Operation.receive e response_template).outgoing

c_str-c_str : (bs : Bytes) → c_str (c_str bs) ≡ c_str bs
unfolding c_str
c_str-c_str [] = refl
c_str-c_str (b ∷ bs) = ground (arith, c_str-c_str bs)

length-c_str : (bs : Bytes) → length (c_str bs) ≤ length bs
unfolding c_str
length-c_str [] = omega arith
length-c_str (b ∷ bs) = ground (arith, length-c_str bs)

module _ {S : Type 0} (os : Os) (r : Redis S) where
  post_stored :
      (tms : ℤ) (src dest payload wire key : Bytes) (sim : Client) (db db' : Connector) (s s' : S)
      → sim.origin ≡ some Originator.sim_client
      → sim.cfg.use_db ≡ true
      → sim.db ≡ some db
      → store r tms payload db s ≡ (s', db', key)
      → Encodes os (key_post src dest key payload) wire
      → post os r tms src dest payload sim s
        ≡ ok (record {
          db = s';
          client = record sim { db = some db' };
          result = key;
          sent = record { channel = Channel.send; wire = wire } ∷ [];
        })
  unfolding post
  post_stored tms src dest payload wire key sim db db' s s' og on has stored h =
      ground (arith, h.serialized)

  receive_key :
      (e : MessageEntry) (wire v : Bytes) (d : Daemon) (app : Client) (db : Connector) (s s' : S)
      → app.cfg.use_db ≡ true
      → app.db ≡ some db
      → d.cfg.use_db ≡ true
      → check_out r e.payload_obj s ≡ (s', v)
      → Encodes os (received_key d e) wire
      → read_answer r os Operation.receive wire app s ≡ ok (s', record e { payload_obj = v })
  unfolding read_answer msg_set_payload_obj
  receive_key e [] v d app db s s' on has on' out h = absurd (h.not_empty refl)
  receive_key e (b ∷ bs) v d app db s s' on has on' out h = ground (arith, h.parsed)

  post_then_receive-stored :
      (laws : KeepsData r) (tms : ℤ) (src payload posts asks answers key v : Bytes)
      (sim app : Client) (db db' peer_db : Connector) (fd fd' : ℤ) (s s' s'' : S) (d : Daemon)
      → sim.origin ≡ some Originator.sim_client
      → app.origin ≡ some Originator.app_client
      → sim.cfg.use_db ≡ true
      → IsStored app.cfg
      → IsStored d.cfg
      → sim.db ≡ some db
      → app.db ≡ some peer_db
      → store r tms payload db s ≡ (s', db', key)
      → check_out r key s' ≡ (s'', v)
      → r.err s'' ≡ false
      → entry_exists (keyed src app.client_id key (length payload)) ≡ true
      → length payload < 2 ^ 31
      → All (λ e. to_destination app.client_id e ≡ false) d.rx_buffer
      → Encodes os (key_post src app.client_id key payload) posts
      → Encodes os (ask_for app.client_id) asks
      → Encodes os (received_key d (keyed src app.client_id key (length payload))) answers
      → post_then_receive os r tms src app.client_id payload sim app fd fd' s d
        ≡ ok (s'', d, keyed src app.client_id (c_str payload) (length payload))
  unfolding post_then_receive take_out
  post_then_receive-stored laws tms src payload posts asks answers key v sim app db db' peer_db fd
        fd' s s' s'' d og og' on m k has has' stored out live exists short others e1 e2 e3 =
      let dest = app.client_id in
      let e = keyed src dest key (length payload) in
      let kept = store-Held r laws tms payload key db db' s s' stored (key_populated e exists) in
      let (same, _) = check_out-Held r laws key (c_str payload) v s' s'' kept out live in
      rw
        (
          post_stored tms src dest payload posts key sim db db' s s' og on has stored e1,
          daemon_holds os d e fd posts (key_post src dest key payload) k.pull refl refl
              (entry_of-key_post d src dest key payload k.db short) e1.parsed,
          receive_asks os r asks app og' m.pull e2,
          daemon_hands os d e fd' asks answers _ refl refl others exists e2.parsed e3,
          arrived-one fd' answers,
          receive_key e answers v d app peer_db s' s'' m.db has' k.db out e3,
        )
        (ap (λ (p : Bytes). ok (s'', d, keyed src dest p (length payload))) same)

  -- The texts of the six messages of a journey, with the keys of the two payloads.
  pub record KeyedWires (d : Daemon) (src id dest payload key key' : Bytes) : Type 0 where
    pub send_wire : Bytes
    pub fetch_wire : Bytes
    pub fetched_wire : Bytes
    pub post_wire : Bytes
    pub receive_wire : Bytes
    pub received_wire : Bytes
    pub send_encodes : Encodes os (key_message src dest key payload) send_wire
    pub fetch_encodes : Encodes os (Outward.ask_for src id) fetch_wire
    pub fetched_encodes :
        Encodes os (found_key d (keyed src dest key (length payload))) fetched_wire
    pub post_encodes : Encodes os (key_post src dest key' (c_str payload)) post_wire
    pub receive_encodes : Encodes os (ask_for dest) receive_wire
    pub received_encodes :
        Encodes os (received_key d (keyed src dest key' (length (c_str payload)))) received_wire

  -- What `store` and `checkOut` do with a value, from a state of the server to another.
  pub record Passage (c : Connector) (tms : ℤ) (value key : Bytes) (s t : S) : Type 0 where
    pub connector : Connector
    pub between : S
    pub read : Bytes
    pub stored : store r tms value c s ≡ (between, connector, key)
    pub taken : check_out r key between ≡ (t, read)
    pub fine : r.err t ≡ false

  -- In PULL mode with a system-wide simulator, with a database that keeps what it is given, where the connections
  -- to it have no error and the codec carries the six messages: what one application client sends to another, and
  -- the simulator client fetches and posts on as it is, is received by the other with the source and destination
  -- that it was sent with, with the payload up to its first zero byte, and with the length of that. Neither
  -- name is empty, the length fits an int, and the daemon held nothing for either name; it is left as it was.
  pub journey-stored :
      (laws : KeepsData r) (tms tms' : ℤ) (payload key key' : Bytes) (app sim peer : Client)
      (ends : Ends) (db sim_db peer_db : Connector) (s t u : S) (d : Daemon)
      → app.origin ≡ some Originator.app_client
      → sim.origin ≡ some Originator.sim_client
      → peer.origin ≡ some Originator.app_client
      → app.cfg.use_db ≡ true
      → IsStored sim.cfg
      → IsStored peer.cfg
      → IsStored d.cfg
      → sim.cfg.simulator_mode ≡ SimulatorMode.system_wide
      → app.db ≡ some db
      → sim.db ≡ some sim_db
      → peer.db ≡ some peer_db
      → Passage db tms payload key s t
      → Passage sim_db tms' (c_str payload) key' t u
      → entry_exists (keyed app.client_id peer.client_id key (length payload)) ≡ true
      → entry_exists (keyed app.client_id peer.client_id key' (length (c_str payload))) ≡ true
      → length payload < 2 ^ 31
      → All (λ e. from_source app.client_id e ≡ false) d.tx_buffer
      → All (λ e. to_destination peer.client_id e ≡ false) d.rx_buffer
      → KeyedWires d app.client_id sim.client_id peer.client_id payload key key'
      → journey os r tms tms' payload app sim peer ends s d
        ≡ ok (u, d, keyed app.client_id peer.client_id (c_str payload) (length (c_str payload)))
  unfolding journey
  journey-stored laws tms tms' payload key key' app sim peer ends db sim_db peer_db s t u d og og'
        og'' on m b k wide has has' has'' p q exists exists' short out back w =
      let src = app.client_id in
      let dest = peer.client_id in
      let shorter = length-c_str payload in
      rw
        (
          send_then_fetch-stored os r laws tms dest payload w.send_wire w.fetch_wire w.fetched_wire
              key p.read app sim db p.connector sim_db ends.sends ends.fetches s p.between t d og
              og' on m k wide has has' p.stored p.taken p.fine exists short out w.send_encodes
              w.fetch_encodes w.fetched_encodes,
          post_then_receive-stored laws tms' src (c_str payload) w.post_wire w.receive_wire
              w.received_wire key' q.read sim peer sim_db q.connector peer_db ends.posts
              ends.receives t q.between u d og' og'' m.db b k has' has'' q.stored q.taken q.fine
              exists' (omega (arith, shorter)) back w.post_encodes w.receive_encodes
              w.received_encodes,
          c_str-c_str payload,
        )
        refl
