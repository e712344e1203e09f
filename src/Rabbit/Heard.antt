-- ===== src/Rabbit/Heard.antt =====
-- What the user's callback of `listen` hears of the payloads that another client sends.
use nsb_ci.Prelude.{
  ◌≤◌, Bytes, true, List, [], ◌∷◌, ◌++◌, ◌≡◌, refl, ◌≢◌, arith, All, map, length, length-append,
  append-nil, ap, sym, ◌∙◌, subst,
}
use nsb_ci.Message.{Operation, Originator}
use nsb_ci.Daemon.{Os, ok}
use nsb_ci.Client.Relay.{Encodes}
use nsb_ci.Rabbit.{Amqp, ChannelKind, recv_queue}
use nsb_ci.Rabbit.Client.{ClientRmq, EntryRmq, payload_message}
use nsb_ci.Rabbit.Broker.{IsBroker}
use nsb_ci.Rabbit.Delivery.{entry_rmq, send_all, sent_all, Carries}
use nsb_ci.Rabbit.Listener.{listen_on, listen_loop, on_wire}
use nsb_ci.Rabbit.Listening.{call_all, Adds, concat, listen_loop-Heard}

-- The user's callback on the entries of some payloads.
unfoldable pub hear {ℓ} : {E : Type ℓ} → (EntryRmq → E → E) → Bytes → Bytes → List Bytes → E → E
hear user src dest [] e = e
hear user src dest (p ∷ ps) e = hear user src dest ps (user (entry_rmq src dest p) e)

length-map_wire : (f : Bytes → Bytes) (ps : List Bytes) → length (map f ps) ≡ length ps
length-map_wire f [] = refl
length-map_wire f (p ∷ ps) = omega (arith, length-map_wire f ps)

nil_of_length : (zs : List Bytes) → length zs ≤ 0 → zs ≡ []
nil_of_length [] h = refl
nil_of_length (z ∷ zs) h = absurd (omega arith)

second_nil : (xs ys : List Bytes) → xs ++ ys ≡ [] → ys ≡ []
second_nil [] ys e = e
second_nil (x ∷ xs) ys e = cc

all_taken : (xs ys zs : List Bytes) → xs ≡ ys ++ zs → length xs ≤ length ys → (ys ≡ xs) × (zs ≡ [])
all_taken xs ys zs e h =
    let none_left = nil_of_length zs (omega (arith, ap length e, length-append {0} ys zs)) in
    (sym (e ∙ ap (λ k. ys ++ k) none_left ∙ append-nil ys), none_left)

module _ {B : Type 0} (os : Os) (amqp : Amqp B) (broker : IsBroker amqp) where
  -- The others leave a queue alone.
  abbrev pub Quiet : Bytes → List (B → B) → Type 0
  Quiet q = All (λ f. (b : B) → broker.waiting (f b) q ≡ broker.waiting b q)

  no_news :
      {E : Type 0} (callback : Bytes → E → E) (q : Bytes) (turns : List (B → B))
      → Quiet q turns
      → Adds amqp broker callback q turns (map (λ _. []) turns)
        × (concat amqp broker callback q (map (λ _. []) turns) ≡ [])
  no_news callback q [] h = (tt, refl)
  no_news callback q (f ∷ fs) h =
      let (adds, none_at_all) = no_news callback q fs h.1 in
      ((λ b. h.0 b ∙ sym (append-nil (broker.waiting b q)), adds), none_at_all)

  on_wire-Encodes :
      {E : Type 0} (user : EntryRmq → E → E) (src dest payload wire : Bytes) (e : E)
      → Encodes os (payload_message Operation.send Originator.app_client src dest payload) wire
      → on_wire os user wire e ≡ user (entry_rmq src dest payload) e
  unfolding on_wire
  on_wire-Encodes user src dest payload wire e h = rw (h.parsed, on_wire) refl

  module _ {E : Type 0} (user : EntryRmq → E → E) (c peer : ClientRmq) (dest : Bytes)
      (wire : Bytes → Bytes) where
    heard_all :
        (ps : List Bytes) (e : E)
        → Carries os amqp broker c peer dest wire ps
        → call_all (on_wire os user) (map wire ps) e ≡ hear user c.id dest ps e
    unfolding call_all hear
    heard_all [] e h = refl
    heard_all (p ∷ ps) e h =
        ap (call_all (on_wire os user) (map wire ps))
          (on_wire-Encodes user c.id dest p (wire p) e h.0)
        ∙ heard_all ps (user (entry_rmq c.id dest p) e) h.1

    from_there :
        (ps : List Bytes) (turns : List (B → B)) (b : B) (e : E)
        → peer.comms.q_recv ≡ recv_queue dest
        → broker.waiting b (recv_queue dest) ≡ map wire ps
        → Carries os amqp broker c peer dest wire ps
        → Quiet (recv_queue dest) turns
        → length ps ≤ length turns
        → let s = listen_on amqp (on_wire os user) turns peer.comms ChannelKind.recv (b, e) in
          (s.1 ≡ hear user c.id dest ps e) × (broker.waiting s.0 (recv_queue dest) ≡ [])
    unfolding listen_on
    from_there ps turns b e queue w h quiet enough =
        let q = recv_queue dest in
        let cb = on_wire os user in
        let (adds, none_new) = no_news cb q turns quiet in
        let n = length-map_wire wire ps in
        let t =
          listen_loop-Heard amqp broker cb q (length ps) turns (map (λ _. []) turns) (b, e) adds
            (omega (arith, ap length w, n)) enough in
        let all : map wire ps
            ≡ t.taken ++ (t.lost ++ broker.waiting (listen_loop amqp cb turns q (b, e)).0 q) =
          sym (append-nil (map wire ps))
          ∙ ap (λ k. map wire ps ++ k) (sym none_new)
          ∙ ap (λ k. k ++ concat amqp broker cb q (map (λ _. []) turns)) (sym w)
          ∙ t.in_order in
        let (same, none_left) = all_taken _ t.taken _ all (omega (arith, n, t.enough)) in
        let empty = second_nil t.lost _ none_left in
        subst
          (λ k.
            ((listen_loop amqp cb turns k (b, e)).1 ≡ hear user c.id dest ps e)
            × (broker.waiting (listen_loop amqp cb turns k (b, e)).0 q ≡ []))
          (sym queue) (t.called ∙ ap (λ k. call_all cb k e) same ∙ heard_all ps e h, empty)

    -- Payloads that one client sends to another, whose queue is bound and empty, reach the callback that the
    -- other listens with: one call for each, in the order of the sends, with both names and the payload. Nothing
    -- is left over. The codec carries the messages, the sender is connected, the listener has as many turns as
    -- there are payloads, and nobody else touches the queue.
    pub listen_on-send_all :
        (ps : List Bytes) (turns : List (B → B)) (b : B) (e : E)
        → c.comms.connected ≡ true
        → peer.comms.q_recv ≡ recv_queue dest
        → dest ≢ []
        → broker.bound b (recv_queue dest) ≡ true
        → broker.waiting b (recv_queue dest) ≡ []
        → Carries os amqp broker c peer dest wire ps
        → Quiet (recv_queue dest) turns
        → length ps ≤ length turns
        → (b' : B) × (send_all os amqp dest ps c b ≡ ok b')
          × (let s = listen_on amqp (on_wire os user) turns peer.comms ChannelKind.recv (b', e) in
              (s.1 ≡ hear user c.id dest ps e) × (broker.waiting s.0 (recv_queue dest) ≡ []))
    listen_on-send_all ps turns b e up queue named bound none_yet h quiet enough =
        let (b', sent, w) = sent_all os amqp broker c peer dest wire ps b up named bound h in
        (
          b',
          sent,
          from_there ps turns b' e queue (w ∙ ap (λ l. l ++ map wire ps) none_yet) h quiet enough,
        )
