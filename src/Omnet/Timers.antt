-- ===== src/Omnet/Timers.antt =====
-- When the timer of `nsbBasicApp` fires, and that it stops.
use nsb_ci.Prelude.{
  ℕ, suc, ◌+◌, ◌≤◌, ◌<◌, ℤ, Bytes, false, List, [], ◌∷◌, none, some, ◌≡◌, refl, arith, length, All,
  inl, inr, Option-cases, ap, sym, subst,
}
use nsb_ci.Daemon.{Os, Outcome, ok}
use nsb_ci.Db.{Redis}
use nsb_ci.Client.Ready.{IsReady}
use nsb_ci.Omnet.Turns.{Resolves, Goes, fires, idle}
use nsb_ci.Omnet.Schedule.{IsTimed, rounds_left, sends_left, closed_at, none_left}
use nsb_ci.Omnet.Source.{Kind, Node, Firing, run_app}

-- What a run comes to.
pub record Ends {S : Type 0} (s : ℕ) (n n' : Node S) : Type 0 where
  pub no_timer : n'.app.timer ≡ none
  pub closed : n'.app.socket_open ≡ false
  pub bounded : n'.app.num_sent ≤ n.app.num_sent + sends_left s n.app.timer
  pub counted : n'.app.num_sent + length n.packets ≡ n.app.num_sent + length n'.packets

module _ {S : Type 0} (os : Os) (r : Redis S) (resolve : Bytes → Outcome Bytes) (port : ℤ) where
  settled : (s : ℕ) (n : Node S) → IsTimed s n.app → n.app.timer ≡ none → Ends s n n
  settled s n timed e = record {
    no_timer = e;
    closed = closed_at s n.app timed e;
    bounded = omega arith;
    counted = refl;
  }

  -- A run goes on from a turn of the timer.
  after_turn :
      (k : Kind) (s now : ℕ) (n m n' : Node S)
      → n.app.timer ≡ some (k, now)
      → Goes s now k n m
      → Ends s m n'
      → Ends s n n'
  after_turn k s now n m n' e g h = record {
    no_timer = h.no_timer;
    closed = h.closed;
    bounded =
        subst (λ t. n'.app.num_sent ≤ n.app.num_sent + sends_left s t) (sym e)
          (omega (arith, g.advances.sends, h.bounded));
    counted = omega (arith, g.counted, h.counted);
  }

  fewer_left :
      (k : Kind) (s now fuel : ℕ) (n m : Node S)
      → n.app.timer ≡ some (k, now)
      → Goes s now k n m
      → rounds_left s n.app.timer ≤ suc fuel
      → rounds_left s m.app.timer ≤ fuel
  fewer_left k s now fuel n m e g enough =
      let h = subst (λ t. rounds_left s t ≤ suc fuel) e enough in omega (arith, g.advances.fewer)

  -- An application with a stop time s, whose timer is set as the application sets it, has stopped after at most
  -- one timer for each tick until s and two more, whatever the daemon answers: every timer returns, nothing is
  -- scheduled any more, the socket is closed, it has sent at most as many packets as there are ticks until s
  -- and one more, and the count is that of the packets. Its client is initialised and uses no database, names
  -- resolve, and the intervals between sends are not 0.
  pub run_app-Ends :
      (s : ℕ) (fs : List Firing) (n : Node S)
      → Resolves resolve
      → IsReady n.client
      → All (λ f. 0 < f.interval) fs
      → n.app.stop_time ≡ some s
      → IsTimed s n.app
      → rounds_left s n.app.timer ≤ length fs
      → (n' : Node S) × (run_app os r resolve port fs n ≡ ok n') × Ends s n n'
  unfolding run_app
  run_app-Ends s [] n all ready positive stops timed enough =
      (n, refl, settled s n timed (none_left s n.app.timer enough))
  run_app-Ends s (f ∷ fs) n all ready positive stops timed enough =
      elim (Option-cases n.app.timer) [
        | inl e ↦
            let e' : rounds_left s n.app.timer ≡ 0 = ap (rounds_left s) e in
            let (n', g, h) =
              run_app-Ends s fs n all ready positive.1 stops timed (omega (arith, e')) in
            (n', rw (idle os r resolve port f n e) g, h)
        | inr ((k, now), e) ↦
            let (m, e', goes) =
              fires os r resolve port k s now f n all ready positive.0 timed e stops in
            let (n', g, h) =
              run_app-Ends s fs m all (subst IsReady (sym goes.same_client) ready) positive.1
                goes.advances.stop_time goes.advances.timed
                (fewer_left k s now (length fs) n m e goes enough) in
            (n', rw e' g, after_turn k s now n m n' e goes h)
      ]
