-- ===== src/Rabbit/Listening.antt =====
-- What the listener thread of a RabbitMQ client hands to its callback.
use nsb_ci.Prelude.{
  ℕ, ◌+◌, ◌≤◌, Bytes, List, [], ◌∷◌, ◌++◌, none, some, ◌≡◌, refl, arith, length, append_assoc,
  append-nil, ap, length-append, ◌-◌, min, sym, ◌∙◌, subst,
}
use nsb_ci.Rabbit.{Amqp}
use nsb_ci.Rabbit.Broker.{IsBroker}
use nsb_ci.Rabbit.Listener.{listen_turn, listen_turns, listen_loop}

-- A callback over bodies, in their order.
unfoldable pub call_all {ℓ} : {E : Type ℓ} → (Bytes → E → E) → List Bytes → E → E
call_all callback [] e = e
call_all callback (body ∷ bodies) e = call_all callback bodies (callback body e)

module _ {B E : Type 0} (amqp : Amqp B) (broker : IsBroker amqp) (callback : Bytes → E → E)
    (q : Bytes) where
  -- What the others do before each turn adds these bodies to the queue.
  abbrev pub Adds : List (B → B) → List (List Bytes) → Type 0
  Adds [] [] = Unit {0}
  Adds [] (l ∷ ls) = ⊥
  Adds (f ∷ fs) [] = ⊥
  Adds (f ∷ fs) (l ∷ ls) = ((b : B) → broker.waiting (f b) q ≡ broker.waiting b q ++ l) × Adds fs ls

  abbrev pub concat : List (List Bytes) → List Bytes
  concat [] = []
  concat (l ∷ ls) = l ++ concat ls

  idle_turn :
      (s : B × E)
      → (amqp.consume q s.0).0 ≡ none
      → listen_turn amqp callback q s ≡ ((amqp.consume q s.0).1, s.1)
  unfolding listen_turn
  idle_turn s e = rw (e, listen_turn) refl

  full_turn :
      (s : B × E) (body : Bytes)
      → (amqp.consume q s.0).0 ≡ some body
      → listen_turn amqp callback q s ≡ ((amqp.consume q s.0).1, callback body s.1)
  unfolding listen_turn
  full_turn s body e = rw (e, listen_turn) refl

  -- The bodies that a loop takes, at least `m` of those that are there.
  pub record Takes (m : ℕ) (arrived : List Bytes) (e : E) (s' : B × E) : Type 0 where
    pub taken : List Bytes
    pub called : s'.1 ≡ call_all callback taken e
    pub in_order : arrived ≡ taken ++ broker.waiting s'.0 q
    pub enough : m ≤ length taken

  one_turn :
      (s : B × E) (l : List Bytes) (m : ℕ)
      → broker.waiting s.0 q ≡ l
      → m ≤ length l
      → m ≤ 1
      → Takes m l s.1 (listen_turn amqp callback q s)
        × (length l ≤ length (broker.waiting (listen_turn amqp callback q s).0 q) + 1)
  unfolding call_all
  one_turn s [] m w le le' =
      let (nothing, still) = broker.consume_none s.0 q w in
      rw (idle_turn s nothing)
        (record { taken = []; called = refl; in_order = sym still; enough = le }, omega arith)
  one_turn s (body ∷ l) m w le le' =
      let (first, later) = broker.consume_first s.0 q body l w in
      rw (full_turn s body first) (
        record {
          taken = body ∷ [];
          called = refl;
          in_order = ap (λ r. body ∷ r) (sym later);
          enough = le';
        },
        omega (arith, ap length later),
      )

  call_all-append :
      (xs ys : List Bytes) (e : E)
      → call_all callback (xs ++ ys) e ≡ call_all callback ys (call_all callback xs e)
  unfolding call_all
  call_all-append [] ys e = refl
  call_all-append (x ∷ xs) ys e = call_all-append xs ys (callback x e)

  -- A turn, and the turns after it.
  goes_on :
      (m : ℕ) (l later : List Bytes) (e : E) (s' s'' : B × E)
      → (first : Takes (min m 1) l e s') → Takes (m - 1) (broker.waiting s'.0 q ++ later) s'.1 s''
      → Takes m (l ++ later) e s''
  goes_on m l later e s' s'' first rest = record {
    taken = first.taken ++ rest.taken;
    called =
        rest.called
        ∙ ap (call_all callback rest.taken) first.called
        ∙ sym (call_all-append first.taken rest.taken e);
    in_order =
        ap (λ k. k ++ later) first.in_order
        ∙ append_assoc first.taken (broker.waiting s'.0 q) later
        ∙ ap (λ k. first.taken ++ k) rest.in_order
        ∙ sym (append_assoc first.taken rest.taken (broker.waiting s''.0 q));
    enough = ground (arith, first.enough, rest.enough, length-append {0} first.taken rest.taken);
  }

  listen_turns-Takes :
      (m : ℕ) (turns : List (B → B)) (news : List (List Bytes)) (s : B × E)
      → Adds turns news
      → m ≤ length (broker.waiting s.0 q)
      → m ≤ length turns
      → Takes m (broker.waiting s.0 q ++ concat news) s.1 (listen_turns amqp callback turns q s)
  unfolding listen_turns call_all
  listen_turns-Takes m [] [] s adds le le' = record {
    taken = [];
    called = refl;
    in_order = append-nil (broker.waiting s.0 q);
    enough = le';
  }
  listen_turns-Takes m [] (l ∷ ls) s adds le le' = absurd adds
  listen_turns-Takes m (f ∷ fs) [] s adds le le' = absurd adds
  listen_turns-Takes m (f ∷ fs) (l ∷ ls) s adds le le' =
      let w = broker.waiting s.0 q in
      let s0 : B × E = (f s.0, s.1) in
      let size = length-append {0} w l in
      let (first, few) =
        one_turn s0 (w ++ l) (min m 1) (adds.0 s.0) (ground (arith, size)) (ground arith) in
      let s' = listen_turn amqp callback q s0 in
      let rest =
        listen_turns-Takes (m - 1) fs ls s' adds.1 (omega (arith, few, size)) (omega arith) in
      subst (λ a. Takes m a s.1 (listen_turns amqp callback fs q s')) (append_assoc w l (concat ls))
        (goes_on m (w ++ l) (concat ls) s.1 s' (listen_turns amqp callback fs q s') first rest)

  -- What a loop has done when its consumer is cancelled: it took at least `m` of the bodies that arrived,
  -- some are lost, and the others wait.
  pub record Heard (m : ℕ) (arrived : List Bytes) (e : E) (s' : B × E) : Type 0 where
    pub taken : List Bytes
    pub lost : List Bytes
    pub called : s'.1 ≡ call_all callback taken e
    pub in_order : arrived ≡ taken ++ (lost ++ broker.waiting s'.0 q)
    pub enough : m ≤ length taken

  -- A loop calls the callback with the first of the bodies that arrive in its queue, each once and in
  -- their order, whatever the callback does and whenever the other parties add bodies to the queue. Of the
  -- others the first may be lost, as the consumer does not acknowledge and is cancelled at the end; the
  -- rest waits, in its order. The callback is called with at least m bodies, for every m up to the number of
  -- those that wait at the beginning and the number of turns.
  pub listen_loop-Heard :
      (m : ℕ) (turns : List (B → B)) (news : List (List Bytes)) (s : B × E)
      → Adds turns news
      → m ≤ length (broker.waiting s.0 q)
      → m ≤ length turns
      → Heard m (broker.waiting s.0 q ++ concat news) s.1 (listen_loop amqp callback turns q s)
  unfolding listen_loop
  listen_loop-Heard m turns news s adds le le' =
      let b = amqp.basic_consume q s.0 in
      let begun = broker.basic_consume_waiting s.0 q in
      let t =
        listen_turns-Takes m turns news (b, s.1) adds (omega (arith, ap length begun, le)) le' in
      let s' = listen_turns amqp callback turns q (b, s.1) in
      let (lost, cancelled) = broker.basic_cancel_loses s'.0 q in
      record {
        taken = t.taken;
        lost = lost;
        called = t.called;
        in_order =
            ap (λ l. l ++ concat news) (sym begun) ∙ t.in_order ∙ ap (λ l. t.taken ++ l) cancelled;
        enough = t.enough;
      }
