-- ===== src/Client/Homeward.antt =====
-- From `NSBSimClient::post` through the daemon to `NSBAppClient::receive`, in PULL mode and without a
-- database.
use nsb_ci.Prelude.{
  ℤ, ◌^◌, ◌<◌, Bytes, true, false, [], ◌∷◌, some, none, ◌≡◌, refl, arith, All, length, ap, ◌∙◌,
}
use nsb_ci.Message.{
  set_dest_id, Nsbm, Operation, Originator, OpCode, SystemMode, MessageEntry, entry_exists,
}
use nsb_ci.Daemon.{msg_set_payload_obj, Daemon, Os, Outcome, ok, ◌>>=◌}
use nsb_ci.Daemon.Queues.{to_destination}
use nsb_ci.Daemon.Answers.{found_response}
use nsb_ci.Daemon.Dispatch.{response_template}
use nsb_ci.Db.{Redis}
use nsb_ci.Client.{request, Client, Channel, Done, read_answer}
use nsb_ci.Client.App.{receive_request, receive}
use nsb_ci.Client.Sim.{post}
use nsb_ci.Client.Held.{daemon_holds, daemon_hands}
use nsb_ci.Client.Relay.{
  IsPlain, carrying, carried, entry_of-carrying, Encodes, arrived, hand_over, arrived-one,
}

abbrev pub post_message : Bytes → Bytes → Bytes → Nsbm
post_message = carrying Operation.post Originator.sim_client

-- What a client asks with.
abbrev pub ask_for : Bytes → Nsbm
ask_for dest = set_dest_id dest (request Operation.receive Originator.app_client OpCode.success)

abbrev pub received_message : Daemon → Bytes → Bytes → Bytes → Nsbm
received_message d src dest payload =
    (found_response d.cfg Operation.receive (carried src dest payload) response_template).outgoing

module _ {S : Type 0} (os : Os) (r : Redis S) where
  -- What follows a post: the daemon reads it on `fd`, and `app` asks on `fd'` for what is there for it.
  unfoldable pub take_out :
      Done S Bytes → Client → ℤ → ℤ → Daemon → Outcome (S × Daemon × MessageEntry)
  unfolding receive hand_over
  take_out out app fd fd' d = do
    (d', effects) ← hand_over os fd out.sent d
    asked ← receive_request os r none app
    (d'', effects') ← hand_over os fd' asked d'
    back ← receive os r none (arrived fd' effects') app out.db
    ok (back.db, d'', back.result)

  -- `sim` posts, and `app` receives what is there for it.
  unfoldable pub post_then_receive :
      ℤ
      → Bytes
      → Bytes
      → Bytes
      → Client
      → Client
      → ℤ
      → ℤ
      → S
      → Daemon
      → Outcome (S × Daemon × MessageEntry)
  unfolding post
  post_then_receive tms src dest payload sim app fd fd' s d = do
    out ← post os r tms src dest payload sim s
    take_out out app fd fd' d

  abbrev pub posted : S → Client → Bytes → Done S Bytes
  posted s sim wire = record {
    db = s;
    client = sim;
    result = [];
    sent = record { channel = Channel.send; wire = wire } ∷ [];
  }

  pub post_plain :
      (tms : ℤ) (src dest payload wire : Bytes) (sim : Client) (s : S)
      → sim.origin ≡ some Originator.sim_client
      → sim.cfg.use_db ≡ false
      → Encodes os (post_message src dest payload) wire
      → post os r tms src dest payload sim s ≡ ok (posted s sim wire)
  unfolding post
  post_plain tms src dest payload wire sim s og plain h = ground (arith, h.serialized)

  pub receive_asks :
      (wire : Bytes) (app : Client)
      → app.origin ≡ some Originator.app_client
      → app.cfg.system_mode ≡ SystemMode.pull
      → Encodes os (ask_for app.client_id) wire
      → receive_request os r none app ≡ ok (record { channel = Channel.recv; wire = wire } ∷ [])
  unfolding receive_request
  receive_asks wire app og pull h = ground (arith, h.serialized)

  app_reads :
      (src dest payload wire : Bytes) (d : Daemon) (app : Client) (s : S)
      → app.cfg.use_db ≡ false
      → d.cfg.use_db ≡ false
      → Encodes os (received_message d src dest payload) wire
      → read_answer r os Operation.receive wire app s ≡ ok (s, carried src dest payload)
  unfolding read_answer msg_set_payload_obj
  app_reads src dest payload [] d app s plain plain' h = absurd (h.not_empty refl)
  app_reads src dest payload (b ∷ bs) d app s plain plain' h = ground (arith, h.parsed)

  -- The texts of the three messages.
  pub record HomeWires (d : Daemon) (src dest payload : Bytes) : Type 0 where
    pub posts : Bytes
    pub asks : Bytes
    pub answers : Bytes
    pub posts_encodes : Encodes os (post_message src dest payload) posts
    pub asks_encodes : Encodes os (ask_for dest) asks
    pub answers_encodes : Encodes os (received_message d src dest payload) answers

  pub take_out-posted :
      (src payload : Bytes) (sim app : Client) (fd fd' : ℤ) (s : S) (d : Daemon)
      (w : HomeWires d src app.client_id payload)
      → app.origin ≡ some Originator.app_client
      → IsPlain app.cfg
      → IsPlain d.cfg
      → entry_exists (carried src app.client_id payload) ≡ true
      → length payload < 2 ^ 31
      → All (λ e. to_destination app.client_id e ≡ false) d.rx_buffer
      → take_out (posted s sim w.posts) app fd fd' d ≡ ok (s, d, carried src app.client_id payload)
  unfolding take_out
  take_out-posted src payload sim app fd fd' s d w app_og a k exists short others =
      let dest = app.client_id in
      rw
        (
          daemon_holds os d (carried src dest payload) fd w.posts (post_message src dest payload)
              k.pull refl refl
              (entry_of-carrying d Operation.post Originator.sim_client src dest payload k.no_db
                short)
              w.posts_encodes.parsed,
          receive_asks w.asks app app_og a.pull w.asks_encodes,
          daemon_hands os d (carried src dest payload) fd' w.asks w.answers _ refl refl others
              exists w.asks_encodes.parsed w.answers_encodes,
          arrived-one fd' w.answers,
          app_reads src dest payload w.answers d app s a.no_db k.no_db w.answers_encodes,
        )
        refl

  -- In PULL mode, without a database, and where the codec carries the three messages: what the
  -- simulator client posts for an application client is what that client then receives, with the same
  -- source, destination, payload and length, if none of the three is empty, the length fits an int, and
  -- the daemon held nothing for that destination. The daemon is left as it was.
  pub post_then_receive_lem :
      (tms : ℤ) (src payload posts asks answers : Bytes) (sim app : Client) (fd fd' : ℤ) (s : S)
      (d : Daemon)
      → sim.origin ≡ some Originator.sim_client
      → app.origin ≡ some Originator.app_client
      → IsPlain sim.cfg
      → IsPlain app.cfg
      → IsPlain d.cfg
      → entry_exists (carried src app.client_id payload) ≡ true
      → length payload < 2 ^ 31
      → All (λ e. to_destination app.client_id e ≡ false) d.rx_buffer
      → Encodes os (post_message src app.client_id payload) posts
      → Encodes os (ask_for app.client_id) asks
      → Encodes os (received_message d src app.client_id payload) answers
      → post_then_receive tms src app.client_id payload sim app fd fd' s d
        ≡ ok (s, d, carried src app.client_id payload)
  unfolding post_then_receive
  post_then_receive_lem tms src payload posts asks answers sim app fd fd' s d sim_og app_og m a k
        exists short others e1 e2 e3 =
      let w : HomeWires d src app.client_id payload = record {
        posts = posts;
        asks = asks;
        answers = answers;
        posts_encodes = e1;
        asks_encodes = e2;
        answers_encodes = e3;
      } in
      ap (λ (o : Outcome (Done S Bytes)). o >>= λ out. take_out out app fd fd' d)
        (post_plain tms src app.client_id payload posts sim s sim_og m.no_db e1)
      ∙ take_out-posted src payload sim app fd fd' s d w app_og a k exists short others
