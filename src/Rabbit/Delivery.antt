-- ===== src/Rabbit/Delivery.antt =====
-- What `NSBAppClientRMQ::send` puts into the queue of its destination, and `receive` takes out of it.
use nsb_ci.Prelude.{
  ℕ, suc, zero, Bytes, Bool, true, List, [], ◌∷◌, ◌++◌, map, append-nil, append_assoc, some, ◌≡◌,
  refl, ◌≢◌, ap, sym, ◌∙◌, All, arith, length,
}
use nsb_ci.Message.{Operation, Originator}
use nsb_ci.Daemon.{Os, Outcome, ok, ◌>>=◌}
use nsb_ci.Client.Relay.{Encodes}
use nsb_ci.Rabbit.{Amqp, ChannelKind, recv_queue, recv_on}
use nsb_ci.Rabbit.Client.{ClientRmq, EntryRmq, payload_message, send_rmq, receive_rmq, read_wire}
use nsb_ci.Rabbit.Broker.{IsBroker, recv_turns_lem}

abbrev pub entry_rmq : Bytes → Bytes → Bytes → EntryRmq
entry_rmq src dest payload = record { src_id = src; dest_id = dest; payload = payload }

module _ {B : Type 0} (os : Os) (amqp : Amqp B) where
  -- Send payloads, one after another.
  unfoldable pub send_all : Bytes → List Bytes → ClientRmq → B → Outcome B
  unfolding send_rmq
  send_all dest [] c b = ok b
  send_all dest (p ∷ ps) c b = do b' ← send_rmq os amqp dest p c b; send_all dest ps c b'

  -- Receive as many entries, each within the given turns and into a new `out`.
  unfoldable pub receive_all :
      ℕ → ℕ → EntryRmq → ClientRmq → B → Outcome (List (Bool × EntryRmq) × B)
  unfolding receive_rmq
  receive_all zero turns out c b = ok ([], b)
  receive_all (suc n) turns out c b = do
    (found, entry, b') ← receive_rmq os amqp turns out c b
    (later, b'') ← receive_all n turns out c b'
    ok ((found, entry) ∷ later, b'')

  send_one :
      (dest payload wire : Bytes) (c : ClientRmq) (b : B)
      → c.comms.connected ≡ true
      → dest ≢ []
      → Encodes os (payload_message Operation.send Originator.app_client c.id dest payload) wire
      → send_rmq os amqp dest payload c b ≡ ok (amqp.publish (recv_queue dest) wire b)
  unfolding send_rmq
  send_one dest payload wire c b up named h = ground (arith, h.serialized)

  read_one :
      (op : Operation) (og : Originator) (src dest payload wire : Bytes) (out : EntryRmq)
      → Encodes os (payload_message op og src dest payload) wire
      → read_wire os (some wire) out ≡ (true, entry_rmq src dest payload)
  unfolding read_wire
  read_one op og src dest payload wire out h = ground (arith, h.parsed)

  module _ (broker : IsBroker amqp) (c peer : ClientRmq) (dest : Bytes) (wire : Bytes → Bytes) where
    -- The codec carries each payload of a list.
    abbrev pub Carries : List Bytes → Type 0
    Carries = All (λ p.
        Encodes os (payload_message Operation.send Originator.app_client c.id dest p) (wire p))

    pub sent_all :
        (ps : List Bytes) (b : B)
        → c.comms.connected ≡ true
        → dest ≢ []
        → broker.bound b (recv_queue dest) ≡ true
        → Carries ps
        → (b' : B) × (send_all dest ps c b ≡ ok b')
          × (broker.waiting b' (recv_queue dest)
              ≡ broker.waiting b (recv_queue dest) ++ map wire ps)
    unfolding send_all
    sent_all [] b up named bound h = (b, refl, sym (append-nil _))
    sent_all (p ∷ ps) b up named bound h =
        let q = recv_queue dest in
        let b1 = amqp.publish q (wire p) b in
        let (b', e, w) =
          sent_all ps b1 up named (broker.publish_bound b q (wire p) q ∙ bound) h.1 in
        (
          b',
          rw (send_one dest p (wire p) c b up named h.0) e,
          w
              ∙ ap (λ l. l ++ map wire ps) (broker.publish_waiting b q (wire p) bound)
              ∙ append_assoc (broker.waiting b q) (wire p ∷ []) (map wire ps),
        )

    from_queue :
        (payload : Bytes) (rest : List Bytes) (turns : ℕ) (b : B)
        → peer.comms.connected ≡ true
        → peer.comms.q_recv ≡ recv_queue dest
        → broker.waiting b (recv_queue dest) ≡ wire payload ∷ rest
        → recv_on amqp (suc turns) peer.comms ChannelKind.recv b
          ≡ ok (some (wire payload), (amqp.consume (recv_queue dest) b).1)
    unfolding recv_on
    from_queue payload rest turns b up queue w =
        rw (up, queue)
          (ap ok (recv_turns_lem amqp broker turns (recv_queue dest) (wire payload) rest b w))

    received_one :
        (payload : Bytes) (rest : List Bytes) (turns : ℕ) (out : EntryRmq) (b : B)
        → peer.comms.connected ≡ true
        → peer.comms.q_recv ≡ recv_queue dest
        → broker.waiting b (recv_queue dest) ≡ wire payload ∷ rest
        → Carries (payload ∷ [])
        → receive_rmq os amqp (suc turns) out peer b
          ≡ ok (true, entry_rmq c.id dest payload, (amqp.consume (recv_queue dest) b).1)
    unfolding receive_rmq
    received_one payload rest turns out b up queue w h =
        rw
          (
            from_queue payload rest turns b up queue w,
            read_one Operation.send Originator.app_client c.id dest payload (wire payload) out h.0,
          )
          refl

    received_all :
        (ps : List Bytes) (turns : ℕ) (out : EntryRmq) (b : B)
        → peer.comms.connected ≡ true
        → peer.comms.q_recv ≡ recv_queue dest
        → broker.waiting b (recv_queue dest) ≡ map wire ps
        → Carries ps
        → (b' : B) × (receive_all (length ps) (suc turns) out peer b
            ≡ ok (map (λ p. (true, entry_rmq c.id dest p)) ps, b'))
          × (broker.waiting b' (recv_queue dest) ≡ [])
    unfolding receive_all
    received_all [] turns out b up queue w h = (b, refl, w)
    received_all (p ∷ ps) turns out b up queue w h =
        let q = recv_queue dest in
        let b1 = (amqp.consume q b).1 in
        let (b', e, empty) =
          received_all ps turns out b1 up queue
            (broker.consume_first b q (wire p) (map wire ps) w).1 h.1 in
        (b', rw (received_one p (map wire ps) turns out b up queue w (h.0, tt), e) refl, empty)

    -- Payloads that one client sends to another, whose queue is bound and empty, are what the other
    -- receives, each once, with both names, and in the order of the sends. Nothing is left over. The
    -- codec carries the messages, both clients are connected, and each wait has at least one turn.
    pub receive_all-send_all :
        (ps : List Bytes) (turns : ℕ) (out : EntryRmq) (b : B)
        → c.comms.connected ≡ true
        → peer.comms.connected ≡ true
        → peer.comms.q_recv ≡ recv_queue dest
        → dest ≢ []
        → broker.bound b (recv_queue dest) ≡ true
        → broker.waiting b (recv_queue dest) ≡ []
        → Carries ps
        → (b' : B) × ((send_all dest ps c b >>= receive_all (length ps) (suc turns) out peer)
            ≡ ok (map (λ p. (true, entry_rmq c.id dest p)) ps, b'))
          × (broker.waiting b' (recv_queue dest) ≡ [])
    receive_all-send_all ps turns out b up up' queue named bound none_yet h =
        let (b1, e, w) = sent_all ps b up named bound h in
        let (b', e', empty) =
          received_all ps turns out b1 up' queue (w ∙ ap (λ l. l ++ map wire ps) none_yet) h in
        (b', rw (e, e') refl, empty)
