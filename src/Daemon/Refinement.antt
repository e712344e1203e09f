-- ===== src/Daemon/Refinement.antt =====
-- The handlers of cpp/src/nsb_daemon.cc against the queues of Daemon/Queues.antt, in PULL mode.
use nsb_ci.Prelude.{
  false, List, [], ◌∷◌, ◌++◌, ◌≡◌, refl, ◌≢◌, ap, ◌∙◌, inl, inr, arith, All, Bool-cases, keep,
}
use nsb_ci.Message.{Nsbm, Operation, SystemMode, Config, get_manifest, get_metadata, is_message}
use nsb_ci.Daemon.{Daemon, Os, Outcome, ok, Reply, no_response}
use nsb_ci.Daemon.Init.{handle_init, handle_ping}
use nsb_ci.Daemon.Messages.{entry_of, handle_send, handle_fetch, handle_post, handle_receive}
use nsb_ci.Daemon.Dispatch.{dispatch, dispatch_on, response_template, run, stop}
use nsb_ci.Daemon.Queues.{
  Views, views, SameViews, IsAddressed, from_source, to_destination, spec_on, spec_step, take_named,
  append_named, fetch_addressed, receive_addressed,
}

-- In PULL mode every operation returns, and moves the queues as `spec_step` says.
abbrev pub Refines : Operation → Daemon → Nsbm → Outcome (Daemon × Reply) → Type 0
Refines op d m o =
    (d' : Daemon) × (r : Reply) × (o ≡ ok (d', r))
    × SameViews (views d') (spec_on op d.cfg m (views d))
    × (d'.cfg ≡ d.cfg)

SameViews-refl : (v : Views) → SameViews v v
SameViews-refl v = record { tx = λ s. refl; rx = λ s. refl }

module _ (os : Os) (d : Daemon) (m out : Nsbm) (pull : d.cfg.system_mode ≡ SystemMode.pull) where
  send-Refines : Refines Operation.send d m (handle_send os d m out)
  unfolding handle_send
  send-Refines = (
    record d { tx_buffer = d.tx_buffer ++ entry_of d.cfg m ∷ [] },
    no_response out,
    ground arith,
    record {
      tx = λ s. append_named (λ e. e.source) (entry_of d.cfg m) s d.tx_buffer;
      rx = λ s. refl;
    },
    refl,
  )

  fetch-Refines :
      (get_metadata m).src_id ≢ [] → Refines Operation.fetch d m (ok (handle_fetch d m out))
  unfolding handle_fetch
  fetch-Refines h = (
    (handle_fetch d m out).0,
    (handle_fetch d m out).1,
    refl,
    record {
      tx = λ s. rw (fetch_addressed m d.tx_buffer h) (take_named (λ e. e.source) _ s d.tx_buffer);
      rx = λ s. refl;
    },
    refl,
  )

  receive-Refines :
      (get_metadata m).dest_id ≢ [] → Refines Operation.receive d m (ok (handle_receive d m out))
  unfolding handle_receive
  receive-Refines h = (
    (handle_receive d m out).0,
    (handle_receive d m out).1,
    refl,
    record {
      tx = λ s. refl;
      rx = λ s.
          rw (receive_addressed m d.rx_buffer h) (take_named (λ e. e.destination) _ s d.rx_buffer);
    },
    refl,
  )

  post-Refines : Refines Operation.post d m (handle_post os d m out)
  unfolding handle_post
  post-Refines = elim (Bool-cases (is_message (get_manifest m).code)) [
    | inl yes_message ↦ (
      record d { rx_buffer = d.rx_buffer ++ entry_of d.cfg m ∷ [] },
      no_response out,
      ground arith,
      rw yes_message (record {
        tx = λ s. refl;
        rx = λ s. append_named (λ e. e.destination) (entry_of d.cfg m) s d.rx_buffer;
      }),
      refl,
    )
    | inr not_message ↦
        (d, no_response out, ground arith, rw not_message (SameViews-refl (views d)), refl)
  ]

-- INIT leaves the buffers and the configuration alone.
init_keeps :
    (d : Daemon) (m out : Nsbm)
    → ((handle_init d m out).0.tx_buffer ≡ d.tx_buffer)
      × ((handle_init d m out).0.rx_buffer ≡ d.rx_buffer)
      × ((handle_init d m out).0.cfg ≡ d.cfg)
unfolding handle_init
init_keeps d m out = ground arith

init-Refines : (d : Daemon) (m out : Nsbm) → Refines Operation.init d m (ok (handle_init d m out))
init-Refines d m out =
    let (tx, rx, cfg) = init_keeps d m out in
    (
      (handle_init d m out).0,
      (handle_init d m out).1,
      refl,
      record { tx = λ s. ap (keep (from_source s)) tx; rx = λ s. ap (keep (to_destination s)) rx },
      cfg,
    )

exit-Refines :
    (d : Daemon) (m out : Nsbm) → Refines Operation.exit d m (ok (stop d, no_response out))
unfolding stop
exit-Refines d m out = elim (Bool-cases d.running) [
  | inl up ↦ (record d { running = false }, no_response out, ground arith, SameViews-refl _, refl)
  | inr down ↦ (d, no_response out, ground arith, SameViews-refl _, refl)
]

-- In PULL mode, and where FETCH names a source and RECEIVE a destination, every operation returns
-- normally, keeps the configuration, and moves the queues of the sources and of the destinations as
-- `spec_on` says: SEND and POST add one entry at one end, FETCH and RECEIVE take it at the other, each
-- in the one queue that the message names, and nothing else moves a queue.
pub dispatch_on-Refines :
    (os : Os) (op : Operation) (d : Daemon) (m out : Nsbm)
    → d.cfg.system_mode ≡ SystemMode.pull
    → (op ≡ Operation.fetch → (get_metadata m).src_id ≢ [])
    → (op ≡ Operation.receive → (get_metadata m).dest_id ≢ [])
    → Refines op d m (dispatch_on op os d m out)
unfolding dispatch_on handle_ping
dispatch_on-Refines os Operation.init d m out pull src dest = init-Refines d m out
dispatch_on-Refines os Operation.send d m out pull src dest = send-Refines os d m out pull
dispatch_on-Refines os Operation.fetch d m out pull src dest =
    fetch-Refines os d m out pull (src refl)
dispatch_on-Refines os Operation.post d m out pull src dest = post-Refines os d m out pull
dispatch_on-Refines os Operation.receive d m out pull src dest =
    receive-Refines os d m out pull (dest refl)
dispatch_on-Refines os Operation.exit d m out pull src dest = exit-Refines d m out
dispatch_on-Refines os _ d m out pull src dest = (d, _, refl, SameViews-refl (views d), refl)

abbrev pub spec_run : Config → List Nsbm → Views → Views
spec_run cfg [] v = v
spec_run cfg (m ∷ ms) v = spec_run cfg ms (spec_step cfg m v)

-- The specification reads a view only through its queues.
spec_on-SameViews :
    (op : Operation) (cfg : Config) (m : Nsbm) {v w : Views}
    → SameViews v w
    → SameViews (spec_on op cfg m v) (spec_on op cfg m w)
spec_on-SameViews Operation.send cfg m h = record { tx = λ s. ground (arith, h.tx s); rx = h.rx }
spec_on-SameViews Operation.fetch cfg m h = record { tx = λ s. ground (arith, h.tx s); rx = h.rx }
spec_on-SameViews Operation.post cfg m h = record {
  tx = λ s. ground (arith, h.tx s);
  rx = λ s. ground (arith, h.rx s);
}
spec_on-SameViews Operation.receive cfg m h = record { tx = h.tx; rx = λ s. ground (arith, h.rx s) }
spec_on-SameViews _ cfg m h = h

spec_run-SameViews :
    (cfg : Config) (ms : List Nsbm) {v w : Views}
    → SameViews v w
    → SameViews (spec_run cfg ms v) (spec_run cfg ms w)
spec_run-SameViews cfg [] h = h
spec_run-SameViews cfg (m ∷ ms) h =
    spec_run-SameViews cfg ms (spec_on-SameViews (get_manifest m).op cfg m h)

SameViews-trans : {u v w : Views} → SameViews u v → SameViews v w → SameViews u w
SameViews-trans p q = record { tx = λ s. p.tx s ∙ q.tx s; rx = λ s. p.rx s ∙ q.rx s }

-- In PULL mode, any sequence of messages whose FETCHes name a source and whose RECEIVEs name a
-- destination runs to its end, and leaves the queues that `spec_run` computes from those at the start.
pub run-Refines :
    (os : Os) (d : Daemon) (ms : List Nsbm)
    → d.cfg.system_mode ≡ SystemMode.pull
    → All IsAddressed ms
    → (d' : Daemon) × (run os d ms ≡ ok d') × SameViews (views d') (spec_run d.cfg ms (views d))
unfolding run dispatch
run-Refines os d [] pull a = (d, refl, SameViews-refl (views d))
run-Refines os d (m ∷ ms) pull a =
    let (d', r, e, v, c) =
      dispatch_on-Refines os (get_manifest m).op d m response_template pull a.0.0 a.0.1 in
    let (d'', e', v') = run-Refines os d' ms (ap (λ (x : Config). x.system_mode) c ∙ pull) a.1 in
    (d'', rw e e', SameViews-trans v' (rw c (spec_run-SameViews d.cfg ms v)))
