-- ===== src/Omnet/Turns.antt =====
-- What one timer of `nsbBasicApp` does.
use nsb_ci.Prelude.{
  ℕ, ◌+◌, ◌≤◌, ◌<◌, ℤ, Bytes, true, none, some, is_empty, ◌≡◌, refl, arith, length, length-append,
  Bool-cases, inl, inr, ap, ◌∙◌,
}
use nsb_ci.Message.{MessageEntry, entry_exists}
use nsb_ci.Daemon.{Os, Outcome, ok}
use nsb_ci.Db.{Redis}
use nsb_ci.Client.{Done}
use nsb_ci.Client.Sim.{fetch_any}
use nsb_ci.Client.Ready.{IsReady, fetch_any-returns}
use nsb_ci.Omnet.Schedule.{
  IsTimed, Advances, next_of_send, next_of_start, num_sent-schedule_next, stopped, stops_only,
  none_left, num_sent-only_stop, num_sent-process_stop, IsTimed-at,
}
use nsb_ci.Omnet.Source.{
  Kind, start, send, stop, App, Node, Firing, packet_of, fetched, sent_packet, schedule_next,
  only_stop, process_stop, send_packet, process_send, process_start, handle_kind, fire,
}

-- A step of a node: at most one packet more, which the count tells, with the client and the stop time as
-- they were.
pub record Sends {S : Type 0} (n n' : Node S) : Type 0 where
  pub few : n'.app.num_sent ≤ n.app.num_sent + 1
  pub counted : n'.app.num_sent + length n.packets ≡ n.app.num_sent + length n'.packets
  pub same_client : n'.client ≡ n.client
  pub same_stop : n'.app.stop_time ≡ n.app.stop_time

-- Every name has an address.
abbrev pub Resolves : (Bytes → Outcome Bytes) → Type 0
Resolves resolve = (name : Bytes) → (address : Bytes) × (resolve name ≡ ok address)

-- A node goes on from a timer.
pub record Goes {S : Type 0} (s now : ℕ) (k : Kind) (n n' : Node S) : Type 0 where
  pub advances : Advances s now k n.app.num_sent n'.app
  pub counted : n'.app.num_sent + length n.packets ≡ n.app.num_sent + length n'.packets
  pub same_client : n'.client ≡ n.client

module _ {S : Type 0} (os : Os) (r : Redis S) (resolve : Bytes → Outcome Bytes) (port : ℤ) where
  sent_or_not :
      (response address : Bytes) (n : Node S) (d : Done S MessageEntry)
      → fetch_any os r response n.client n.db ≡ ok d
      → d.client ≡ n.client
      → resolve d.result.destination ≡ ok address
      → (n' : Node S) × (send_packet os r resolve port response n ≡ ok n') × Sends n n'
  unfolding send_packet
  sent_or_not response address n d e same f = elim (Bool-cases (entry_exists d.result)) [
    | inl some_entry ↦ (
      sent_packet (packet_of d.result address port) (fetched d n),
      rw (e, some_entry, f) refl,
      record {
        few = omega arith;
        counted = omega (arith, length-append {0} n.packets);
        same_client = same;
        same_stop = refl;
      },
    )
    | inr nothing ↦ (
      fetched d n,
      rw (e, nothing) refl,
      record { few = omega arith; counted = refl; same_client = same; same_stop = refl },
    )
  ]

  send_packet-returns :
      (response : Bytes) (n : Node S)
      → Resolves resolve
      → IsReady n.client
      → (n' : Node S) × (send_packet os r resolve port response n ≡ ok n') × Sends n n'
  send_packet-returns response n all ready =
      let (d, e, same, _) = fetch_any-returns os r response n.client n.db ready in
      let (address, f) = all d.result.destination in sent_or_not response address n d e same f

  process_send-Goes :
      (s now : ℕ) (k : Kind) (f : Firing) (n : Node S)
      → Resolves resolve
      → IsReady n.client
      → ((app : App)
          → app.stop_time ≡ some s
          → app.num_sent ≤ n.app.num_sent + 1
          → Advances s now k n.app.num_sent (schedule_next now f.interval app))
      → n.app.stop_time ≡ some s
      → (n' : Node S) × (process_send os r resolve port now f n ≡ ok n') × Goes s now k n n'
  unfolding process_send
  process_send-Goes s now k f n all ready next stops =
      let (m, e, sends) = send_packet-returns f.response n all ready in
      (
        record m { app = schedule_next now f.interval m.app },
        rw e refl,
        record {
          advances = next m.app (sends.same_stop ∙ stops) sends.few;
          counted =
              ap (λ k. k + length n.packets) (num_sent-schedule_next now f.interval m.app)
              ∙ sends.counted;
          same_client = sends.same_client;
        },
      )

  process_start-Goes :
      (s now : ℕ) (f : Firing) (n : Node S)
      → Resolves resolve
      → IsReady n.client
      → 0 < f.interval
      → now ≤ s
      → n.app.stop_time ≡ some s
      → (n' : Node S) × (process_start os r resolve port now f n ≡ ok n') × Goes s now start n n'
  unfolding process_start
  process_start-Goes s now f n all ready positive le stops =
      let opened : Node S = record n { app = record n.app { socket_open = true } } in
      elim (Bool-cases (is_empty n.app.dest_addresses)) [
        | inl none_given ↦ (
          record opened { app = only_stop opened.app },
          rw none_given refl,
          record {
            advances = stops_only s now opened.app le stops;
            counted = ap (λ k. k + length n.packets) (num_sent-only_stop opened.app);
            same_client = refl;
          },
        )
        | inr given ↦
            let (n', e, g) =
              process_send-Goes s now start f opened all ready
                (λ app h few. next_of_start s now f.interval n.app.num_sent app h positive le few)
                stops in
            (
              n',
              rw given e,
              record { advances = g.advances; counted = g.counted; same_client = g.same_client },
            )
      ]

  handle_kind-Goes :
      (k : Kind) (s now : ℕ) (f : Firing) (n : Node S)
      → Resolves resolve
      → IsReady n.client
      → 0 < f.interval
      → IsTimed s (record n.app { timer = some (k, now) })
      → n.app.timer ≡ none
      → n.app.stop_time ≡ some s
      → (n' : Node S) × (handle_kind os r resolve port k now f n ≡ ok n') × Goes s now k n n'
  unfolding handle_kind
  handle_kind-Goes start s now f n all ready positive timed none_left stops =
      process_start-Goes s now f n all ready positive timed stops
  handle_kind-Goes send s now f n all ready positive timed none_left stops =
      process_send-Goes s now send f n all ready
        (λ app h few. next_of_send s now f.interval n.app.num_sent app h positive timed few) stops
  handle_kind-Goes stop s now f n all ready positive timed none_left stops = (
    record n { app = process_stop n.app },
    refl,
    record {
      advances = stopped s now n.app timed none_left stops;
      counted = ap (λ k. k + length n.packets) (num_sent-process_stop n.app);
      same_client = refl;
    },
  )

  pub fires :
      (k : Kind) (s now : ℕ) (f : Firing) (n : Node S)
      → Resolves resolve
      → IsReady n.client
      → 0 < f.interval
      → IsTimed s n.app
      → n.app.timer ≡ some (k, now)
      → n.app.stop_time ≡ some s
      → (n' : Node S) × (fire os r resolve port f n ≡ ok n') × Goes s now k n n'
  unfolding fire
  fires k s now f n all ready positive timed scheduled stops =
      let m : Node S = record n { app = record n.app { timer = none } } in
      let (n', e, g) =
        handle_kind-Goes k s now f m all ready positive (IsTimed-at k s now n.app timed scheduled)
          refl stops in
      (
        n',
        rw (scheduled, fire) e,
        record { advances = g.advances; counted = g.counted; same_client = g.same_client },
      )

  pub idle : (f : Firing) (n : Node S) → n.app.timer ≡ none → fire os r resolve port f n ≡ ok n
  unfolding fire
  idle f n e = ground arith
