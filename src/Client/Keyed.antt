-- ===== src/Client/Keyed.antt =====
-- From `NSBAppClient::send` through the daemon to `NSBSimClient::fetch` in PULL mode with a database:
-- the payload goes through the database, and its key through the daemon.
use nsb_ci.Prelude.{
  ℕ, ℤ, pos, ◌^◌, ◌<◌, Bytes, true, false, [], ◌∷◌, some, ◌≡◌, refl, ◌≢◌, arith, All, length,
  to_int-small, ap,
}
use nsb_ci.Message.{
  Nsbm, Operation, Originator, SystemMode, SimulatorMode, MessageEntry, Config, set_msg_key,
  entry_exists,
}
use nsb_ci.Daemon.{Daemon, Os, ok, msg_set_payload_obj}
use nsb_ci.Daemon.Messages.{entry_of}
use nsb_ci.Daemon.Queues.{from_source}
use nsb_ci.Daemon.Answers.{found_response}
use nsb_ci.Daemon.Dispatch.{response_template}
use nsb_ci.Db.{Redis, Connector, c_str, store, check_out}
use nsb_ci.Db.Payloads.{KeepsData, store-Held, check_out-Held}
use nsb_ci.Client.{Client, Channel, read_answer}
use nsb_ci.Client.App.{outgoing, send}
use nsb_ci.Client.Relay.{Encodes, arrived-one}
use nsb_ci.Client.Outward.{daemon_stores, daemon_answers, fetch_asks, ask_for, send_then_fetch}

-- PULL mode, with a database.
pub record IsStored (cfg : Config) : Type 0 where
  pub pull : cfg.system_mode ≡ SystemMode.pull
  pub db : cfg.use_db ≡ true

-- The entry that a key travels in.
abbrev pub keyed : Bytes → Bytes → Bytes → ℕ → MessageEntry
keyed src dest key n = record {
  source = src;
  destination = dest;
  payload_obj = key;
  payload_size = pos n;
}

abbrev pub key_message : Bytes → Bytes → Bytes → Bytes → Nsbm
key_message src dest key payload =
    set_msg_key key (outgoing Operation.send Originator.app_client src dest payload)

entry_of-key_message :
    (d : Daemon) (src dest key payload : Bytes)
    → d.cfg.use_db ≡ true
    → length payload < 2 ^ 31
    → entry_of d.cfg (key_message src dest key payload) ≡ keyed src dest key (length payload)
unfolding entry_of
entry_of-key_message d src dest key payload db short =
    ground (arith, to_int-small (length payload) short)

abbrev pub found_key : Daemon → MessageEntry → Nsbm
found_key d e = (found_response d.cfg Operation.fetch e response_template).outgoing

pub key_populated : (e : MessageEntry) → entry_exists e ≡ true → e.payload_obj ≢ []
unfolding entry_exists
key_populated e h = ground arith

module _ {S : Type 0} (os : Os) (r : Redis S) where
  send_stored :
      (tms : ℤ) (dest payload wire key : Bytes) (app : Client) (db db' : Connector) (s s' : S)
      → app.origin ≡ some Originator.app_client
      → app.cfg.use_db ≡ true
      → app.db ≡ some db
      → store r tms payload db s ≡ (s', db', key)
      → Encodes os (key_message app.client_id dest key payload) wire
      → send os r tms dest payload app s
        ≡ ok (record {
          db = s';
          client = record app { db = some db' };
          result = key;
          sent = record { channel = Channel.send; wire = wire } ∷ [];
        })
  unfolding send
  send_stored tms dest payload wire key app db db' s s' og on has stored h =
      ground (arith, h.serialized)

  read_key :
      (e : MessageEntry) (wire v : Bytes) (d : Daemon) (sim : Client) (db : Connector) (s s' : S)
      → sim.cfg.use_db ≡ true
      → sim.db ≡ some db
      → d.cfg.use_db ≡ true
      → check_out r e.payload_obj s ≡ (s', v)
      → Encodes os (found_key d e) wire
      → read_answer r os Operation.fetch wire sim s ≡ ok (s', record e { payload_obj = v })
  unfolding read_answer msg_set_payload_obj
  read_key e [] v d sim db s s' on has on' out h = absurd (h.not_empty refl)
  read_key e (b ∷ bs) v d sim db s s' on has on' out h = ground (arith, h.parsed)

  -- In PULL mode, with a database that keeps what it is given, where the connections to it have no error
  -- and the codec carries the three messages: what an application client sends is what a simulator
  -- client then fetches for that source, with the same source, destination and length, and with the
  -- payload up to its first zero byte. Neither name is empty, the length fits an int, and the daemon held
  -- nothing from that source; it is left as it was.
  pub send_then_fetch-stored :
      (laws : KeepsData r) (tms : ℤ) (dest payload sends asks answers key v : Bytes)
      (app sim : Client) (db db' peer_db : Connector) (fd fd' : ℤ) (s s' s'' : S) (d : Daemon)
      → app.origin ≡ some Originator.app_client
      → sim.origin ≡ some Originator.sim_client
      → app.cfg.use_db ≡ true
      → IsStored sim.cfg
      → IsStored d.cfg
      → sim.cfg.simulator_mode ≡ SimulatorMode.system_wide
      → app.db ≡ some db
      → sim.db ≡ some peer_db
      → store r tms payload db s ≡ (s', db', key)
      → check_out r key s' ≡ (s'', v)
      → r.err s'' ≡ false
      → entry_exists (keyed app.client_id dest key (length payload)) ≡ true
      → length payload < 2 ^ 31
      → All (λ e. from_source app.client_id e ≡ false) d.tx_buffer
      → Encodes os (key_message app.client_id dest key payload) sends
      → Encodes os (ask_for app.client_id sim.client_id) asks
      → Encodes os (found_key d (keyed app.client_id dest key (length payload))) answers
      → send_then_fetch os r tms dest payload app.client_id app sim fd fd' s d
        ≡ ok (s'', d, keyed app.client_id dest (c_str payload) (length payload))
  unfolding send_then_fetch
  send_then_fetch-stored laws tms dest payload sends asks answers key v app sim db db' peer_db fd
        fd' s s' s'' d og og' on m k wide has has' stored out live exists short others e1 e2 e3 =
      let src = app.client_id in
      let e = keyed src dest key (length payload) in
      let kept = store-Held r laws tms payload key db db' s s' stored (key_populated e exists) in
      let (same, _) = check_out-Held r laws key (c_str payload) v s' s'' kept out live in
      rw
        (
          send_stored tms dest payload sends key app db db' s s' og on has stored e1,
          daemon_stores os d e fd sends (key_message src dest key payload) k.pull refl
              (entry_of-key_message d src dest key payload k.db short) e1.parsed,
          fetch_asks os r src asks sim og' m.pull wide e2,
          daemon_answers os d e fd' asks answers _ refl refl others exists e2.parsed e3,
          arrived-one fd' answers,
          read_key e answers v d sim peer_db s' s'' m.db has' k.db out e3,
        )
        (ap (λ (p : Bytes). ok (s'', d, keyed src dest p (length payload))) same)
