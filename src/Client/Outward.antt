-- ===== src/Client/Outward.antt =====
-- From `NSBAppClient::send` through the daemon to `NSBSimClient::fetch`, in PULL mode and without a
-- database.
use nsb_ci.Prelude.{
  ℤ, ◌^◌, ◌<◌, Bytes, true, false, List, [], ◌∷◌, ◌++◌, some, ◌≡◌, refl, arith, append-nil, All,
  length, ap, ◌∙◌, sym,
}
use nsb_ci.Message.{
  get_manifest, get_metadata, Nsbm, Operation, Originator, SystemMode, SimulatorMode, MessageEntry,
  entry_exists,
}
use nsb_ci.Daemon.{no_response, msg_set_payload_obj, Daemon, Os, Outcome, ok, ◌>>=◌, Effect, sent}
use nsb_ci.Daemon.Messages.{entry_of}
use nsb_ci.Daemon.Queues.{from_source}
use nsb_ci.Daemon.Answers.{source_populated, found_response, send_pull, handle_fetch-oldest}
use nsb_ci.Daemon.Dispatch.{dispatch_on, handle_message, response_template}
use nsb_ci.Db.{Redis}
use nsb_ci.Client.{Client, Channel, read_answer}
use nsb_ci.Client.App.{send}
use nsb_ci.Client.Sim.{fetch_message, fetch_request, fetch}
use nsb_ci.Client.Relay.{
  IsPlain, carrying, carried, entry_of-carrying, handle_message-handled, transmit-Encodes, Encodes,
  arrived, hand_over, arrived-one,
}

abbrev pub send_message : Bytes → Bytes → Bytes → Nsbm
send_message = carrying Operation.send Originator.app_client

-- What a system-wide simulator asks with.
abbrev pub ask_for : Bytes → Bytes → Nsbm
ask_for src id = fetch_message Originator.sim_client SimulatorMode.system_wide id (some src)

abbrev pub fetched_message : Daemon → Bytes → Bytes → Bytes → Nsbm
fetched_message d src dest payload =
    (found_response d.cfg Operation.fetch (carried src dest payload) response_template).outgoing

module _ (os : Os) (d : Daemon) (e : MessageEntry) where
  -- A SEND that carries an entry puts it at the end of the buffer.
  pub daemon_stores :
      (fd : ℤ) (wire : Bytes) (m : Nsbm)
      → d.cfg.system_mode ≡ SystemMode.pull
      → (get_manifest m).op ≡ Operation.send
      → entry_of d.cfg m ≡ e
      → os.parse wire ≡ some m
      → handle_message os fd d wire ≡ ok (record d { tx_buffer = d.tx_buffer ++ e ∷ [] }, [])
  unfolding dispatch_on
  daemon_stores fd wire m pull op carries parsed =
      handle_message-handled os fd d _ m wire _ parsed (
        ap (λ (o : Operation). dispatch_on o os d m response_template) op
        ∙ send_pull os d m response_template pull
        ∙ ap
            (λ (e : MessageEntry).
              ok (record d { tx_buffer = d.tx_buffer ++ e ∷ [] }, no_response response_template))
            carries)

  -- A FETCH for its source takes it out again, where nothing else of that source waits.
  pub daemon_answers :
      (fd : ℤ) (wire back : Bytes) (m : Nsbm)
      → (get_manifest m).op ≡ Operation.fetch
      → (get_metadata m).src_id ≡ e.source
      → All (λ x. from_source e.source x ≡ false) d.tx_buffer
      → entry_exists e ≡ true
      → os.parse wire ≡ some m
      → Encodes os (found_response d.cfg Operation.fetch e response_template).outgoing back
      → handle_message os fd (record d { tx_buffer = d.tx_buffer ++ e ∷ [] }) wire
        ≡ ok (d, sent fd back ∷ [])
  unfolding dispatch_on
  daemon_answers fd wire back m op named others exists parsed h =
      let d' : Daemon = record d { tx_buffer = d.tx_buffer ++ e ∷ [] } in
      let taken =
        handle_fetch-oldest d' m response_template d.tx_buffer [] e
          (rw named (source_populated e exists)) refl (rw named others) (sym named) exists in
      let handled =
        ap (λ (o : Operation). dispatch_on o os d' m response_template) op
        ∙ ap ok (
            taken
            ∙ ap
                (λ (b : List MessageEntry). (
                  record d { tx_buffer = b },
                  found_response d.cfg Operation.fetch e response_template,
                ))
                (append-nil d.tx_buffer)) in
      handle_message-handled os fd d' d m wire _ parsed handled
      ∙ ap (λ (effects : List Effect). ok (d, effects)) (transmit-Encodes os fd _ back h)

module _ {S : Type 0} (os : Os) (r : Redis S) where
  -- `app` sends, and `sim` fetches what `src` has sent. The daemon reads on `fd` and on `fd'`.
  unfoldable pub send_then_fetch :
      ℤ
      → Bytes
      → Bytes
      → Bytes
      → Client
      → Client
      → ℤ
      → ℤ
      → S
      → Daemon
      → Outcome (S × Daemon × MessageEntry)
  unfolding send fetch hand_over
  send_then_fetch tms dest payload src app sim fd fd' s d = do
    out ← send os r tms dest payload app s
    (d', effects) ← hand_over os fd out.sent d
    asked ← fetch_request os r (some src) sim
    (d'', effects') ← hand_over os fd' asked d'
    back ← fetch os r (some src) (arrived fd' effects') sim out.db
    ok (back.db, d'', back.result)

  pub send_plain :
      (tms : ℤ) (dest payload wire : Bytes) (app : Client) (s : S)
      → app.origin ≡ some Originator.app_client
      → app.cfg.use_db ≡ false
      → Encodes os (send_message app.client_id dest payload) wire
      → send os r tms dest payload app s
        ≡ ok (record {
          db = s;
          client = app;
          result = [];
          sent = record { channel = Channel.send; wire = wire } ∷ [];
        })
  unfolding send
  send_plain tms dest payload wire app s og plain h = ground (arith, h.serialized)

  pub fetch_asks :
      (src wire : Bytes) (sim : Client)
      → sim.origin ≡ some Originator.sim_client
      → sim.cfg.system_mode ≡ SystemMode.pull
      → sim.cfg.simulator_mode ≡ SimulatorMode.system_wide
      → Encodes os (ask_for src sim.client_id) wire
      → fetch_request os r (some src) sim ≡ ok (record { channel = Channel.recv; wire = wire } ∷ [])
  unfolding fetch_request
  fetch_asks src wire sim og pull wide h = ground (arith, h.serialized)

  pub sim_reads :
      (src dest payload wire : Bytes) (d : Daemon) (sim : Client) (s : S)
      → sim.cfg.use_db ≡ false
      → d.cfg.use_db ≡ false
      → Encodes os (fetched_message d src dest payload) wire
      → read_answer r os Operation.fetch wire sim s ≡ ok (s, carried src dest payload)
  unfolding read_answer msg_set_payload_obj
  sim_reads src dest payload [] d sim s plain plain' h = absurd (h.not_empty refl)
  sim_reads src dest payload (b ∷ bs) d sim s plain plain' h = ground (arith, h.parsed)

  -- In PULL mode, without a database, and where the codec carries the three messages: what an
  -- application client sends is what a simulator client then fetches for that source, with the same
  -- source, destination, payload and length, if none of the three is empty, the length fits an int, and
  -- the daemon held nothing from that source. The daemon is left as it was.
  pub send_then_fetch_lem :
      (tms : ℤ) (dest payload sends asks answers : Bytes) (app sim : Client) (fd fd' : ℤ) (s : S)
      (d : Daemon)
      → app.origin ≡ some Originator.app_client
      → sim.origin ≡ some Originator.sim_client
      → IsPlain app.cfg
      → IsPlain sim.cfg
      → IsPlain d.cfg
      → sim.cfg.simulator_mode ≡ SimulatorMode.system_wide
      → entry_exists (carried app.client_id dest payload) ≡ true
      → length payload < 2 ^ 31
      → All (λ e. from_source app.client_id e ≡ false) d.tx_buffer
      → Encodes os (send_message app.client_id dest payload) sends
      → Encodes os (ask_for app.client_id sim.client_id) asks
      → Encodes os (fetched_message d app.client_id dest payload) answers
      → send_then_fetch tms dest payload app.client_id app sim fd fd' s d
        ≡ ok (s, d, carried app.client_id dest payload)
  unfolding send_then_fetch
  send_then_fetch_lem tms dest payload sends asks answers app sim fd fd' s d app_og sim_og a m k
        wide exists short others e1 e2 e3 =
      let src = app.client_id in
      rw
        (
          send_plain tms dest payload sends app s app_og a.no_db e1,
          daemon_stores os d (carried src dest payload) fd sends (send_message src dest payload)
              k.pull refl
              (entry_of-carrying d Operation.send Originator.app_client src dest payload k.no_db
                short)
              e1.parsed,
          fetch_asks src asks sim sim_og m.pull wide e2,
          daemon_answers os d (carried src dest payload) fd' asks answers _ refl refl others exists
              e2.parsed e3,
          arrived-one fd' answers,
          sim_reads src dest payload answers d sim s m.no_db k.no_db e3,
        )
        refl
