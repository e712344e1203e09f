-- ===== src/Client/Next.antt =====
-- `NSBAppClient::send` followed by `NSBSimClient::fetch` without a source, as simulators call it: the requests,
-- the daemon's handling of them, and the answer that the simulator client reads.
use nsb_ci.Prelude.{
  ℤ, ◌^◌, ◌<◌, Bytes, true, false, List, [], ◌∷◌, ◌++◌, some, none, ◌≡◌, refl, arith, All, length,
  ap, ◌∙◌, sym, is_some,
}
use nsb_ci.Message.{
  Nsbm, Operation, Originator, SystemMode, SimulatorMode, MessageEntry, entry_exists, get_manifest,
  get_metadata,
}
use nsb_ci.Daemon.{Daemon, Os, Outcome, ok, ◌>>=◌, Effect, sent, Reply}
use nsb_ci.Daemon.Messages.{handle_fetch, fetch_entry}
use nsb_ci.Daemon.Queues.{from_source}
use nsb_ci.Daemon.Answers.{found_response, response_found, fetch_with}
use nsb_ci.Daemon.Dispatch.{handle_message, dispatch_on, response_template}
use nsb_ci.Db.{Redis}
use nsb_ci.Client.{Client, Channel}
use nsb_ci.Client.App.{send}
use nsb_ci.Client.Sim.{fetch_message, fetch_request, fetch, fetch_any}
use nsb_ci.Client.Relay.{
  IsPlain, carried, entry_of-carrying, handle_message-handled, transmit-Encodes, Encodes, arrived,
  hand_over, arrived-one,
}
use nsb_ci.Client.Outward.{
  send_message, fetched_message, daemon_stores, daemon_answers, send_plain, sim_reads,
}

-- FETCH that names no source takes the oldest entry of all.
pub handle_fetch-next :
    (d : Daemon) (m out : Nsbm) (e : MessageEntry) (rest : List MessageEntry)
    → is_some m.metadata ≡ true
    → (get_metadata m).src_id ≡ []
    → d.tx_buffer ≡ e ∷ rest
    → entry_exists e ≡ true
    → handle_fetch d m out
      ≡ (record d { tx_buffer = rest }, found_response d.cfg Operation.fetch e out)
unfolding fetch_entry
handle_fetch-next d m out e rest there nobody was exists =
    fetch_with d m out (record { entry = e; rest = rest }) (rw (there, nobody, was) refl)
    ∙ ap (λ (r : Reply). (record d { tx_buffer = rest }, r))
        (response_found d.cfg Operation.fetch e out exists)

-- What a simulator client asks with.
abbrev pub ask_next : Client → Nsbm
ask_next sim = fetch_message Originator.sim_client sim.cfg.simulator_mode sim.client_id none

-- The next entry that it is given is one of the source `src`, once that is put into the buffer: nothing else
-- is there, or it asks for this source and nothing of it is there.
pub data Turns (src : Bytes) (sim : Client) (d : Daemon) : Type 0 where
  alone : sim.cfg.simulator_mode ≡ SimulatorMode.system_wide → d.tx_buffer ≡ [] → Turns src sim d
  own :
      sim.cfg.simulator_mode ≡ SimulatorMode.per_node
      → sim.client_id ≡ src
      → All (λ x. from_source src x ≡ false) d.tx_buffer
      → Turns src sim d

daemon_answers_next :
    (os : Os) (d : Daemon) (e : MessageEntry) (fd : ℤ) (wire back : Bytes) (sim : Client)
    → Turns e.source sim d
    → entry_exists e ≡ true
    → os.parse wire ≡ some (ask_next sim)
    → Encodes os (found_response d.cfg Operation.fetch e response_template).outgoing back
    → handle_message os fd (record d { tx_buffer = d.tx_buffer ++ e ∷ [] }) wire
      ≡ ok (d, sent fd back ∷ [])
unfolding dispatch_on fetch_message
daemon_answers_next os d e fd wire back sim (alone wide empty) exists parsed h =
    let d' : Daemon = record d { tx_buffer = d.tx_buffer ++ e ∷ [] } in
    let m = ask_next sim in
    let op : (get_manifest m).op ≡ Operation.fetch = rw wide refl in
    let taken =
      handle_fetch-next d' m response_template e [] (rw wide refl) (rw wide refl)
        (ap (λ (b : List MessageEntry). b ++ e ∷ []) empty) exists in
    let handled =
      ap (λ (o : Operation). dispatch_on o os d' m response_template) op
      ∙ ap ok (
          taken
          ∙ ap
              (λ (b : List MessageEntry). (
                record d { tx_buffer = b },
                found_response d.cfg Operation.fetch e response_template,
              ))
              (sym empty)) in
    handle_message-handled os fd d' d m wire _ parsed handled
    ∙ ap (λ (effects : List Effect). ok (d, effects)) (transmit-Encodes os fd _ back h)
daemon_answers_next os d e fd wire back sim (own per named others) exists parsed h =
    daemon_answers os d e fd wire back (ask_next sim) (rw per refl) (rw per named) others exists
      parsed h

module _ {S : Type 0} (os : Os) (r : Redis S) where
  -- An application client sends, and the daemon reads it on `fd`.
  unfoldable pub put_in : ℤ → Bytes → Bytes → Client → ℤ → S → Daemon → Outcome (S × Daemon)
  put_in tms dest payload app fd s d = do
    out ← send os r tms dest payload app s
    (d', effects) ← hand_over os fd out.sent d
    ok (out.db, d')

  -- A simulator client asks for the next message, and the daemon reads it on `fd`; what comes back.
  unfoldable pub ask_on : Client → ℤ → Daemon → Outcome (Daemon × Bytes)
  ask_on sim fd d = do
    asked ← fetch_request os r none sim
    (d', effects) ← hand_over os fd asked d
    ok (d', arrived fd effects)

  -- The texts of the three messages.
  pub record OutWires (sim : Client) (d : Daemon) (src dest payload : Bytes) : Type 0 where
    pub sends : Bytes
    pub asks : Bytes
    pub answers : Bytes
    pub sends_encodes : Encodes os (send_message src dest payload) sends
    pub asks_encodes : Encodes os (ask_next sim) asks
    pub answers_encodes : Encodes os (fetched_message d src dest payload) answers

  -- What the daemon holds once a message of `src` was put in.
  abbrev pub holding : Daemon → MessageEntry → Daemon
  holding d e = record d { tx_buffer = d.tx_buffer ++ e ∷ [] }

  pub put_in-holding :
      (tms : ℤ) (dest payload sends : Bytes) (app : Client) (fd : ℤ) (s : S) (d : Daemon)
      → app.origin ≡ some Originator.app_client
      → IsPlain app.cfg
      → IsPlain d.cfg
      → length payload < 2 ^ 31
      → Encodes os (send_message app.client_id dest payload) sends
      → put_in tms dest payload app fd s d ≡ ok (s, holding d (carried app.client_id dest payload))
  unfolding put_in hand_over
  put_in-holding tms dest payload sends app fd s d og a k short e =
      rw
        (
          send_plain os r tms dest payload sends app s og a.no_db e,
          daemon_stores os d (carried app.client_id dest payload) fd sends
              (send_message app.client_id dest payload) k.pull refl
              (entry_of-carrying d Operation.send Originator.app_client app.client_id dest payload
                k.no_db short)
              e.parsed,
        )
        refl

  asks_next :
      (asks : Bytes) (sim : Client)
      → sim.origin ≡ some Originator.sim_client
      → sim.cfg.system_mode ≡ SystemMode.pull
      → Encodes os (ask_next sim) asks
      → fetch_request os r none sim ≡ ok (record { channel = Channel.recv; wire = asks } ∷ [])
  unfolding fetch_request
  asks_next asks sim og pull h = ground (arith, h.serialized)

  pub ask_on-holding :
      (asks answers : Bytes) (e : MessageEntry) (sim : Client) (fd : ℤ) (d : Daemon)
      → sim.origin ≡ some Originator.sim_client
      → IsPlain sim.cfg
      → Turns e.source sim d
      → entry_exists e ≡ true
      → Encodes os (ask_next sim) asks
      → Encodes os (found_response d.cfg Operation.fetch e response_template).outgoing answers
      → ask_on sim fd (holding d e) ≡ ok (d, answers)
  unfolding ask_on hand_over
  ask_on-holding asks answers e sim fd d og m turns exists h h' =
      rw
        (
          asks_next asks sim og m.pull h,
          daemon_answers_next os d e fd asks answers sim turns exists h.parsed h',
          arrived-one fd answers,
        )
        refl

  fetch_any-pull :
      (response : Bytes) (sim : Client) (s : S)
      → sim.cfg.system_mode ≡ SystemMode.pull
      → fetch_any os r response sim s ≡ fetch os r none response sim s
  unfolding fetch_any
  fetch_any-pull response sim s pull = ground arith

  pub fetch_any-carried :
      (src dest payload asks answers : Bytes) (d : Daemon) (sim : Client) (s : S)
      → sim.origin ≡ some Originator.sim_client
      → IsPlain sim.cfg
      → IsPlain d.cfg
      → Encodes os (ask_next sim) asks
      → Encodes os (fetched_message d src dest payload) answers
      → fetch_any os r answers sim s
        ≡ ok (record {
          db = s;
          client = sim;
          result = carried src dest payload;
          sent = record { channel = Channel.recv; wire = asks } ∷ [];
        })
  unfolding fetch
  fetch_any-carried src dest payload asks answers d sim s og m k h h' =
      rw
        (
          fetch_any-pull answers sim s m.pull,
          asks_next asks sim og m.pull h,
          sim_reads os r src dest payload answers d sim s m.no_db k.no_db h',
        )
        refl
