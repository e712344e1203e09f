-- ===== src/Tests/Daemon.antt =====
-- The daemon's theorems at concrete data.
use nsb_ci.Prelude.{
  ℤ, Bytes, none, is_some, if◌then◌else◌, ◌⊎◌, pos, bytes, true, [], ◌∷◌, some, ◌≡◌, refl, arith,
  inl, ◌↔◌, str_eq,
}
use nsb_ci.Message.{get_intro, Nsbm, Operation, Originator, entry_exists}
use nsb_ci.Store.Lookup.{find, first}
use nsb_ci.Daemon.{forward_to, ClientDetails, Daemon, ok, sent, fd_settable}
use nsb_ci.Daemon.Init.{handle_init}
use nsb_ci.Daemon.Messages.{handle_send, handle_fetch}
use nsb_ci.Daemon.Dispatch.{run, dispatch_on, handle_message, response_template}
use nsb_ci.Daemon.Queues.{SameViews, views}
use nsb_ci.Daemon.Refinement.{dispatch_on-Refines, run-Refines, Refines, spec_run}
use nsb_ci.Daemon.Answers.{handle_fetch-oldest, handle_fetch-loses, found_response, empty_response}
use nsb_ci.Daemon.Registry.{Describes, Succeeds, handle_init-app}
use nsb_ci.Daemon.Forwarding.{Delivers, PushesTo, as_forward}
use nsb_ci.Daemon.Pushes.{handle_message-pushes_iff}
use nsb_ci.Daemon.Faults.{handle_message-returns_iff, IsServed, IsOrphan, returns, throws}
use nsb_ci.Daemon.Writes.{handle_message-OneAnswer, OneAnswer}
use nsb_ci.Tests.Data.{
  alice, bob, hello, entry, send_hello, fetch_alice, receive_bob, init_of, pulling, pushing, os,
}

run-Refines_example :
    (d' : Daemon) × (run os pulling (send_hello ∷ fetch_alice ∷ receive_bob ∷ []) ≡ ok d')
    × SameViews
        (views d')
        (spec_run pulling.cfg (send_hello ∷ fetch_alice ∷ receive_bob ∷ []) (views pulling))
run-Refines_example =
    run-Refines os pulling (send_hello ∷ fetch_alice ∷ receive_bob ∷ []) refl
      (((λ e p. cc), (λ e p. cc)), (((λ e p. cc), (λ e p. cc)), (((λ e p. cc), (λ e p. cc)), tt)))

dispatch_on-Refines_example :
    Refines Operation.fetch pulling fetch_alice
      (dispatch_on Operation.fetch os pulling fetch_alice response_template)
dispatch_on-Refines_example =
    dispatch_on-Refines os Operation.fetch pulling fetch_alice response_template refl (λ e p. cc)
      (λ e. cc)

handle_fetch-oldest_example : handle_fetch pulling fetch_alice response_template ≡ (
  record pulling { tx_buffer = entry bob alice hello ∷ entry alice bob (bytes "later") ∷ [] },
  found_response pulling.cfg Operation.fetch (entry alice bob hello) response_template,
)
unfolding entry_exists str_eq
handle_fetch-oldest_example =
    handle_fetch-oldest pulling fetch_alice response_template (entry bob alice hello ∷ [])
      (entry alice bob (bytes "later") ∷ []) (entry alice bob hello) (λ p. cc) refl (refl, tt) refl
      refl

handle_fetch-loses_example :
    handle_fetch
      (record pulling { tx_buffer = entry alice bob [] ∷ [] })
      fetch_alice
      response_template
    ≡ (record pulling { tx_buffer = [] }, empty_response Operation.fetch response_template)
unfolding entry_exists
handle_fetch-loses_example =
    handle_fetch-loses (record pulling { tx_buffer = entry alice bob [] ∷ [] }) fetch_alice
      response_template [] [] (entry alice bob []) (λ p. cc) refl tt refl refl

abbrev init_alice : Nsbm
init_alice = init_of Originator.app_client alice

handle_init-app_example :
    let (d', r) = handle_init pulling init_alice response_template in
    ((c : ClientDetails) × Describes (get_intro init_alice) [] c
      × ((id : Bytes)
          → find id d'.app_client_lookup ≡ (
              if is_some (find id pulling.app_client_lookup)
              then find id pulling.app_client_lookup
              else if str_eq alice id
              then some c
              else none)))
    × (d' ≡ record pulling { app_client_lookup = d'.app_client_lookup })
    × Succeeds Operation.init r
handle_init-app_example =
    handle_init-app pulling init_alice response_template
      (record { sims = tt; apps = tt; fds = tt; single = λ e. omega arith }) refl refl

handle_message-pushes_iff_example :
    (pushing ≡ pushing)
    × ((sent (pos 9) (10 ∷ 0 ∷ []) ∷ [] ≡ [])
        ⊎ ((x : ℤ) × (w : Bytes) × (sent (pos 9) (10 ∷ 0 ∷ []) ∷ [] ≡ sent x w ∷ [])))
    × ((x : ℤ) (w : Bytes)
        → (sent (pos 9) (10 ∷ 0 ∷ []) ∷ [] ≡ sent x w ∷ [])
          ↔ (PushesTo pushing send_hello x × Delivers os x (as_forward send_hello) w))
unfolding handle_message handle_send str_eq fd_settable first dispatch_on forward_to
handle_message-pushes_iff_example =
    handle_message-pushes_iff os (pos 4) pushing pushing (1 ∷ []) send_hello
      (sent (pos 9) (10 ∷ 0 ∷ []) ∷ []) refl refl (inl refl) refl

handle_message-returns_iff_example :
    ((returns (handle_message os (pos 4) pushing (1 ∷ [])) ≡ true) ↔ IsServed pushing send_hello)
    × ((throws (handle_message os (pos 4) pushing (1 ∷ [])) ≡ true) ↔ IsOrphan pushing send_hello)
unfolding str_eq
handle_message-returns_iff_example =
    handle_message-returns_iff os (pos 4) pushing (1 ∷ []) send_hello refl

handle_message-OneAnswer_example : OneAnswer (pos 4) (sent (pos 4) (10 ∷ 0 ∷ []) ∷ [])
unfolding handle_message handle_fetch str_eq dispatch_on
handle_message-OneAnswer_example =
    handle_message-OneAnswer os (pos 4) pulling
      (record pulling { tx_buffer = entry bob alice hello ∷ entry alice bob (bytes "later") ∷ [] })
      (2 ∷ []) (sent (pos 4) (10 ∷ 0 ∷ []) ∷ []) refl refl
