-- ===== src/Client/Pushed.antt =====
-- A payload from `NSBAppClient::send` to `NSBAppClient::receive` in PUSH mode: the daemon forwards it to the
-- simulator client, which posts it, and forwards that to the application client.
use nsb_ci.Prelude.{
  ℤ, ◌^◌, ◌<◌, to_int-small, Bytes, true, false, [], ◌∷◌, some, none, ◌≡◌, refl, arith, length, ap,
  ◌∙◌,
}
use nsb_ci.Message.{
  Nsbm, Operation, Originator, SystemMode, MessageEntry, Config, get_manifest, get_metadata,
}
use nsb_ci.Store.Lookup.{find}
use nsb_ci.Daemon.{Daemon, Os, Outcome, ok, ◌>>=◌, sent, ClientDetails, fd_settable}
use nsb_ci.Daemon.Messages.{forwarded}
use nsb_ci.Daemon.Forwarding.{SimOf, Delivers, handle_send-push, handle_post-push}
use nsb_ci.Daemon.Dispatch.{handle_message, dispatch_on, response_template}
use nsb_ci.Db.{Redis}
use nsb_ci.Client.{Client, read_answer}
use nsb_ci.Client.App.{send, receive, receive_request, receive_self}
use nsb_ci.Client.Sim.{fetch, fetch_request, fetch_any, post}
use nsb_ci.Client.Relay.{carried, handle_message-handled, Encodes, arrived, hand_over, arrived-one}
use nsb_ci.Client.Outward.{send_message, send_plain}
use nsb_ci.Client.Homeward.{post_message, post_plain}

-- PUSH mode, without a database.
pub record IsPush (cfg : Config) : Type 0 where
  pub push : cfg.system_mode ≡ SystemMode.push
  pub no_db : cfg.use_db ≡ false

-- The daemon forwards a message: its text as it comes in, and as it goes out on `fd`.
pub record Passes (os : Os) (fd : ℤ) (m : Nsbm) (wire wire' : Bytes) : Type 0 where
  pub comes : Encodes os m wire
  pub goes : Encodes os (forwarded m) wire'
  pub delivers : Delivers os fd (forwarded m) wire'
  pub settable : fd_settable fd ≡ true

module _ (os : Os) (d : Daemon) (c : ClientDetails) (m : Nsbm) (wire wire' : Bytes) where
  daemon_forwards_send :
      (fd : ℤ)
      → d.cfg.system_mode ≡ SystemMode.push
      → (get_manifest m).op ≡ Operation.send
      → SimOf d (get_metadata m).src_id c
      → Passes os c.ch_recv_fd m wire wire'
      → handle_message os fd d wire ≡ ok (d, sent c.ch_recv_fd wire' ∷ [])
  unfolding dispatch_on
  daemon_forwards_send fd push op sim h = handle_message-handled os fd d d m wire _ h.comes.parsed (
      ap (λ (o : Operation). dispatch_on o os d m response_template) op
      ∙ handle_send-push os d m response_template c wire' push sim h.settable h.delivers)

  daemon_forwards_post :
      (fd : ℤ)
      → d.cfg.system_mode ≡ SystemMode.push
      → (get_manifest m).op ≡ Operation.post
      → find (get_metadata m).dest_id d.app_client_lookup ≡ some c
      → Passes os c.ch_recv_fd m wire wire'
      → handle_message os fd d wire ≡ ok (d, sent c.ch_recv_fd wire' ∷ [])
  unfolding dispatch_on
  daemon_forwards_post fd push op app h = handle_message-handled os fd d d m wire _ h.comes.parsed (
      ap (λ (o : Operation). dispatch_on o os d m response_template) op
      ∙ handle_post-push os d m response_template c wire' push app h.settable h.delivers)

module _ {S : Type 0} (os : Os) (r : Redis S) where
  -- A client in PUSH mode asks for nothing.
  asks_nothing :
      (c : Client)
      → c.cfg.system_mode ≡ SystemMode.push
      → (fetch_request os r none c ≡ ok []) × (receive_request os r none c ≡ ok [])
  unfolding fetch_request receive_request
  asks_nothing c push = (ground arith, ground arith)

  -- What is left of the overloads.
  waits :
      (c : Client) (wire : Bytes) (s : S)
      → c.cfg.system_mode ≡ SystemMode.push
      → (fetch_any os r wire c s ≡ fetch os r none wire c s)
        × (receive_self os r wire c s ≡ receive os r none wire c s)
  unfolding fetch_any receive_self
  waits c wire s push = (ground arith, ground arith)

  reads_fetch :
      (src dest payload wire : Bytes) (c : Client) (s : S)
      → c.cfg.use_db ≡ false
      → length payload < 2 ^ 31
      → Encodes os (forwarded (send_message src dest payload)) wire
      → read_answer r os Operation.fetch wire c s ≡ ok (s, carried src dest payload)
  unfolding read_answer
  reads_fetch src dest payload [] c s plain short h = absurd (h.not_empty refl)
  reads_fetch src dest payload (b ∷ bs) c s plain short h =
      ground (arith, h.parsed, to_int-small (length payload) short)

  reads_receive :
      (src dest payload wire : Bytes) (c : Client) (s : S)
      → c.cfg.use_db ≡ false
      → length payload < 2 ^ 31
      → Encodes os (forwarded (post_message src dest payload)) wire
      → read_answer r os Operation.receive wire c s ≡ ok (s, carried src dest payload)
  unfolding read_answer
  reads_receive src dest payload [] c s plain short h = absurd (h.not_empty refl)
  reads_receive src dest payload (b ∷ bs) c s plain short h =
      ground (arith, h.parsed, to_int-small (length payload) short)

  fetch_any-pushed :
      (src dest payload wire : Bytes) (sim : Client) (s : S)
      → IsPush sim.cfg
      → length payload < 2 ^ 31
      → Encodes os (forwarded (send_message src dest payload)) wire
      → fetch_any os r wire sim s
        ≡ ok (record { db = s; client = sim; result = carried src dest payload; sent = [] })
  unfolding fetch
  fetch_any-pushed src dest payload wire sim s m short h =
      rw
        (
          (waits sim wire s m.push).0,
          (asks_nothing sim m.push).0,
          reads_fetch src dest payload wire sim s m.no_db short h,
        )
        refl

  receive_self-pushed :
      (src dest payload wire : Bytes) (peer : Client) (s : S)
      → IsPush peer.cfg
      → length payload < 2 ^ 31
      → Encodes os (forwarded (post_message src dest payload)) wire
      → receive_self os r wire peer s
        ≡ ok (record { db = s; client = peer; result = carried src dest payload; sent = [] })
  unfolding receive
  receive_self-pushed src dest payload wire peer s m short h =
      rw
        (
          (waits peer wire s m.push).1,
          (asks_nothing peer m.push).1,
          reads_receive src dest payload wire peer s m.no_db short h,
        )
        refl

  -- The texts of the messages, as they come to the daemon and as it forwards them.
  pub record PushWires (d : Daemon) (c c' : ClientDetails) (src dest payload : Bytes) : Type 0 where
    pub send_wire : Bytes
    pub forwarded_wire : Bytes
    pub post_wire : Bytes
    pub received_wire : Bytes
    pub send_passes :
        Passes os c.ch_recv_fd (send_message src dest payload) send_wire forwarded_wire
    pub post_passes :
        Passes os c'.ch_recv_fd (post_message src dest payload) post_wire received_wire

  -- The daemon reads the SEND on `fd` and the POST on `fd'`, and sends to the simulator client on `to_sim` and
  -- to the application client on `to_peer`.
  unfoldable pub push_journey :
      ℤ
      → ℤ
      → Bytes
      → Client
      → Client
      → Client
      → ℤ
      → ℤ
      → ℤ
      → ℤ
      → S
      → Daemon
      → Outcome (S × Daemon × MessageEntry)
  unfolding hand_over
  push_journey tms tms' payload app sim peer fd fd' to_sim to_peer s d = do
    out ← send os r tms peer.client_id payload app s
    (d', effects) ← hand_over os fd out.sent d
    got ← fetch_any os r (arrived to_sim effects) sim out.db
    let e = got.result
    back ← post os r tms' e.source e.destination e.payload_obj got.client got.db
    (d'', effects') ← hand_over os fd' back.sent d'
    last ← receive_self os r (arrived to_peer effects') peer back.db
    ok (last.db, d'', last.result)

  -- In PUSH mode, without a database, and where the codec carries the four messages: a payload that one application
  -- client sends to another, and that the simulator client to which the daemon forwards it posts as it is, is
  -- received by the other with the source, destination, payload and length that it was sent with, if the
  -- length fits an int. The daemon knows a simulator client of the source and the destination, and their RECV
  -- channels accept the messages. The daemon and the database are left as they were.
  pub push_journey_lem :
      (tms tms' : ℤ) (payload : Bytes) (app sim peer : Client) (fd fd' : ℤ) (c c' : ClientDetails)
      (s : S) (d : Daemon)
      → app.origin ≡ some Originator.app_client
      → sim.origin ≡ some Originator.sim_client
      → IsPush app.cfg
      → IsPush sim.cfg
      → IsPush peer.cfg
      → d.cfg.system_mode ≡ SystemMode.push
      → SimOf d app.client_id c
      → find peer.client_id d.app_client_lookup ≡ some c'
      → length payload < 2 ^ 31
      → PushWires d c c' app.client_id peer.client_id payload
      → push_journey tms tms' payload app sim peer fd fd' c.ch_recv_fd c'.ch_recv_fd s d
        ≡ ok (s, d, carried app.client_id peer.client_id payload)
  unfolding push_journey
  push_journey_lem tms tms' payload app sim peer fd fd' c c' s d og og' a m b push of_source known
        short w =
      let src = app.client_id in
      let dest = peer.client_id in
      rw
        (
          send_plain os r tms dest payload w.send_wire app s og a.no_db w.send_passes.comes,
          daemon_forwards_send os d c (send_message src dest payload) w.send_wire w.forwarded_wire
              fd push refl of_source w.send_passes,
          arrived-one c.ch_recv_fd w.forwarded_wire,
          fetch_any-pushed src dest payload w.forwarded_wire sim s m short w.send_passes.goes,
          post_plain os r tms' src dest payload w.post_wire sim s og' m.no_db w.post_passes.comes,
          daemon_forwards_post os d c' (post_message src dest payload) w.post_wire w.received_wire
              fd' push refl known w.post_passes,
          arrived-one c'.ch_recv_fd w.received_wire,
          receive_self-pushed src dest payload w.received_wire peer s b short w.post_passes.goes,
        )
        refl
