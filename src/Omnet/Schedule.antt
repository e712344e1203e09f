-- ===== src/Omnet/Schedule.antt =====
-- The timers that `nsbBasicApp` schedules, for an application that has a stop time.
use nsb_ci.Prelude.{
  ℕ, ◌+◌, ◌-◌, ◌≤◌, ◌<◌, ltb, false, Option, none, some, ◌≡◌, refl, arith, Bool-cases, inl, inr,
  subst,
}
use nsb_ci.Omnet.Source.{Kind, start, send, stop, App, schedule_next, only_stop, process_stop}

-- The timer of an application that stops at `s` goes on to a stop: a start comes by then, a send before
-- then, a stop at that time, and the socket is closed once nothing is scheduled.
abbrev pub IsTimed : ℕ → App → Type 0
IsTimed s app = elim app.timer [
  | none ↦ app.socket_open ≡ false
  | some e ↦ elim e.0 [ start ↦ e.1 ≤ s | send ↦ e.1 < s | stop ↦ e.1 ≡ s ]
]

-- How many timers may yet fire.
abbrev pub rounds_left : ℕ → Option (Kind × ℕ) → ℕ
rounds_left s none = 0
rounds_left s (some (start, t)) = s - t + 2
rounds_left s (some (send, t)) = s - t + 1
rounds_left s (some (stop, t)) = 1

-- How many packets may yet be sent.
abbrev pub sends_left : ℕ → Option (Kind × ℕ) → ℕ
sends_left s none = 0
sends_left s (some (start, t)) = s - t + 1
sends_left s (some (send, t)) = s - t
sends_left s (some (stop, t)) = 0

-- What a turn at the timer does to an application: it goes on to a later timer, with fewer to come, and sends
-- at most one packet.
pub record Advances (s now : ℕ) (k : Kind) (before : ℕ) (after : App) : Type 0 where
  pub timed : IsTimed s after
  pub stop_time : after.stop_time ≡ some s
  pub fewer : rounds_left s after.timer < rounds_left s (some (k, now))
  pub sends : after.num_sent + sends_left s after.timer ≤ before + sends_left s (some (k, now))

module _ (s now d before : ℕ) (app : App) (stops : app.stop_time ≡ some s) (positive : 0 < d) where
  pub next_of_send :
      now < s → app.num_sent ≤ before + 1 → Advances s now send before (schedule_next now d app)
  unfolding schedule_next
  next_of_send lt few = elim (Bool-cases (ltb (now + d) s)) [
    | inl on ↦ record {
      timed = ground arith;
      stop_time = ground arith;
      fewer = ground arith;
      sends = ground arith;
    }
    | inr off ↦ record {
      timed = ground arith;
      stop_time = ground arith;
      fewer = ground arith;
      sends = ground arith;
    }
  ]

  pub next_of_start :
      now ≤ s → app.num_sent ≤ before + 1 → Advances s now start before (schedule_next now d app)
  unfolding schedule_next
  next_of_start le few = elim (Bool-cases (ltb (now + d) s)) [
    | inl on ↦ record {
      timed = ground arith;
      stop_time = ground arith;
      fewer = ground arith;
      sends = ground arith;
    }
    | inr off ↦ record {
      timed = ground arith;
      stop_time = ground arith;
      fewer = ground arith;
      sends = ground arith;
    }
  ]

pub num_sent-schedule_next :
    (now d : ℕ) (app : App) → (schedule_next now d app).num_sent ≡ app.num_sent
unfolding schedule_next
num_sent-schedule_next now d app = ground arith

pub stopped :
    (s now : ℕ) (app : App)
    → now ≡ s
    → app.timer ≡ none
    → app.stop_time ≡ some s
    → Advances s now stop app.num_sent (process_stop app)
unfolding process_stop
stopped s now app e none_left stops = record {
  timed = ground arith;
  stop_time = ground arith;
  fewer = ground arith;
  sends = ground arith;
}

pub stops_only :
    (s now : ℕ) (app : App)
    → now ≤ s
    → app.stop_time ≡ some s
    → Advances s now start app.num_sent (only_stop app)
unfolding only_stop
stops_only s now app le stops = record {
  timed = ground arith;
  stop_time = ground arith;
  fewer = ground arith;
  sends = ground arith;
}

pub num_sent-only_stop : (app : App) → (only_stop app).num_sent ≡ app.num_sent
unfolding only_stop
num_sent-only_stop app = ground arith

pub num_sent-process_stop : (app : App) → (process_stop app).num_sent ≡ app.num_sent
unfolding process_stop
num_sent-process_stop app = refl

-- What is scheduled, when it comes to fire.
pub IsTimed-at :
    (k : Kind) (s now : ℕ) (app : App)
    → IsTimed s app
    → app.timer ≡ some (k, now)
    → IsTimed s (record app { timer = some (k, now) })
IsTimed-at k s now app timed e = subst (λ t. IsTimed s (record app { timer = t })) e timed

pub closed_at : (s : ℕ) (app : App) → IsTimed s app → app.timer ≡ none → app.socket_open ≡ false
closed_at s app timed e = subst (λ t. IsTimed s (record app { timer = t })) e timed

pub none_left : (s : ℕ) (t : Option (Kind × ℕ)) → rounds_left s t ≤ 0 → t ≡ none
none_left s none h = refl
none_left s (some (start, t)) h = absurd (omega arith)
none_left s (some (send, t)) h = absurd (omega arith)
none_left s (some (stop, t)) h = absurd (omega arith)
