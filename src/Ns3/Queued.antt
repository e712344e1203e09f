-- ===== src/Ns3/Queued.antt =====
-- The listener thread and the simulator of examples/ns3/nsb-testing-tcp.cc in PUSH mode.
use nsb_ci.Prelude.{
  ℕ, Bytes, Bool, List, [], ◌∷◌, ◌++◌, ◌≡◌, refl, append_assoc, append-nil, All, Bool-cases, inl,
  inr, if◌then◌else◌, ap, ◌∙◌,
}
use nsb_ci.Message.{MessageEntry, entry_exists}
use nsb_ci.Daemon.{Outcome, ok, thrown, undefined, ◌>>=◌}
use nsb_ci.Ns3.Forward.{
  Forwarded, forward_entry, process_queued, Step, heard, turn, listener_turn, run_steps,
}

-- The messages that the thread puts into the queue.
abbrev pub kept : List Step → List MessageEntry
kept [] = []
kept (heard (ok e) ∷ steps) = if entry_exists e then e ∷ kept steps else kept steps
kept (heard _ ∷ steps) = kept steps
kept (turn ∷ steps) = kept steps

-- Every fetch of the thread returns or throws.
abbrev pub IsDefined : Step → Type 0
IsDefined (heard undefined) = ⊥
IsDefined _ = Unit {0}

-- The end of a run, after what came before.
after_run : {A B : Type 0} → (B → Outcome (List A)) → Outcome (B × List A) → Outcome (List A)
after_run k run = run >>= λ r. k r.0 >>= λ gs. ok (r.1 ++ gs)

after_nothing : {A B : Type 0} (k : B → Outcome (List A)) (b : B) → after_run k (ok (b, [])) ≡ k b
unfolding after_run
after_nothing k b = kept_result (k b)
  where
    kept_result : {A : Type 0} (n : Outcome (List A)) → (n >>= λ gs. ok gs) ≡ n
    kept_result thrown = refl
    kept_result undefined = refl
    kept_result (ok gs) = refl

after_run-cons :
    {A B : Type 0} (k : B → Outcome (List A)) (f : Outcome A) (run : Outcome (B × List A))
    → after_run k (f >>= λ x. run >>= λ r. ok (r.0, x ∷ r.1))
      ≡ (f >>= λ x. after_run k run >>= λ fs. ok (x ∷ fs))
unfolding after_run
after_run-cons k thrown run = refl
after_run-cons k undefined run = refl
after_run-cons k (ok x) thrown = refl
after_run-cons k (ok x) undefined = refl
after_run-cons k (ok x) (ok (rest, later)) = consed x later (k rest)
  where
    consed :
        {A : Type 0} (x : A) (later : List A) (n : Outcome (List A))
        → (n >>= λ gs. ok (x ∷ (later ++ gs)))
          ≡ ((n >>= λ gs. ok (later ++ gs)) >>= λ fs. ok (x ∷ fs))
    consed x later thrown = refl
    consed x later undefined = refl
    consed x later (ok gs) = refl

module _ (nodes : ℕ) (connects : ℕ → Bytes → Bool) where
  -- A run, and an emptying of the queue at its end.
  unfoldable pub run_and_drain : List Step → List MessageEntry → Outcome (List Forwarded)
  run_and_drain steps queue = do
    (rest, fs) ← run_steps nodes connects steps queue
    gs ← process_queued nodes connects rest
    ok (fs ++ gs)

  -- However the turns of the simulator's loop and those of the thread alternate: once the thread has
  -- stopped and the simulator has emptied the queue, the simulator has done what it would do with the
  -- messages that were queued and then those that the thread fetched, the ones that exist, in the order in
  -- which they came, each once. Every fetch of the thread returns or throws.
  pub run_and_drain-process_queued :
      (steps : List Step) (queue : List MessageEntry)
      → All IsDefined steps
      → run_and_drain steps queue ≡ process_queued nodes connects (queue ++ kept steps)
  unfolding run_and_drain run_steps listener_turn after_run process_queued
  run_and_drain-process_queued [] queue h =
      rw (append-nil queue) (after_nothing (process_queued nodes connects) queue)
  run_and_drain-process_queued (heard (ok e) ∷ steps) queue h = elim (Bool-cases (entry_exists e)) [
    | inl there ↦ rw there (
        run_and_drain-process_queued steps (queue ++ e ∷ []) h.1
        ∙ ap (process_queued nodes connects) (append_assoc queue (e ∷ []) (kept steps)))
    | inr nothing ↦ rw nothing (run_and_drain-process_queued steps queue h.1)
  ]
  run_and_drain-process_queued (heard thrown ∷ steps) queue h =
      run_and_drain-process_queued steps queue h.1
  run_and_drain-process_queued (heard undefined ∷ steps) queue h = absurd h.0
  run_and_drain-process_queued (turn ∷ steps) [] h = run_and_drain-process_queued steps [] h.1
  run_and_drain-process_queued (turn ∷ steps) (e ∷ queue) h =
      after_run-cons (process_queued nodes connects) (forward_entry nodes connects e)
        (run_steps nodes connects steps queue)
      ∙ ap
          (λ (m : Outcome (List Forwarded)).
            forward_entry nodes connects e >>= λ x. m >>= λ fs. ok (x ∷ fs))
          (run_and_drain-process_queued steps queue h.1)
