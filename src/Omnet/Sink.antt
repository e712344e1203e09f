-- ===== src/Omnet/Sink.antt =====
-- `nsbAppSink` of examples/omnet/nsb_omnet_inet/INETAppFiles/nsbAppSink.cc: the application that hands
-- the packets that arrive to the daemon. A multicast group is given by whether its address is one.
use nsb_ci.Prelude.{
  max, ℕ, ℤ, ◌+◌, ltb, ◌==◌, Bytes, Bool, true, false, ◌&&◌, ◌||◌, Option, none, some,
  if◌then◌else◌,
}
use nsb_ci.Daemon.{Os, Outcome, ok, thrown, ◌>>=◌}
use nsb_ci.Db.{Redis}
use nsb_ci.Client.{Client, Done}
use nsb_ci.Client.Sim.{post}
use nsb_ci.Omnet.Frame.{read_frame}

-- The kinds of `selfMsg`.
pub data SinkKind : Type 0 where
  start stop : SinkKind

pub record Sink : Type 0 where
  pub num_received : ℕ
  pub start_time : ℕ
  pub stop_time : Option ℕ
  pub timer : Option (SinkKind × ℕ)
  pub socket_open : Bool
  pub in_group : Bool

-- `initialize`, in its first stage.
unfoldable pub initialize_sink : ℕ → Option ℕ → Outcome Sink
initialize_sink start_time stop_time =
    let sink : Sink = record {
      num_received = 0;
      start_time = start_time;
      stop_time = stop_time;
      timer = none;
      socket_open = false;
      in_group = false;
    } in
    elim stop_time [ none ↦ ok sink | some t ↦ if ltb t start_time then thrown else ok sink ]

-- `handleStartOperation`
unfoldable pub handle_start_sink : ℕ → Sink → Sink
handle_start_sink now k =
    let at = max k.start_time now in
    let started : Sink = record k { timer = some (start, at) } in
    elim k.stop_time [
      | none ↦ started
      | some t ↦ if ltb at t || (at == t && k.start_time == t) then started else k
    ]

-- `setSocketOptions`: an address that is given and is no multicast address throws.
unfoldable pub join_group : Option Bool → Sink → Outcome Sink
join_group none k = ok k
join_group (some multicast) k = if multicast then ok (record k { in_group = true }) else thrown

-- `processStart`
unfoldable pub process_start_sink : Option Bool → Sink → Outcome Sink
unfolding join_group
process_start_sink group k = do
  k' ← join_group group (record k { socket_open = true })
  ok (elim k'.stop_time [ none ↦ k' | some t ↦ record k' { timer = some (stop, t) } ])

-- `processStop`, and `handleStopOperation`, which cancels the timer first
unfoldable pub process_stop_sink : Sink → Sink
process_stop_sink k = record k { socket_open = false; in_group = false }

unfoldable pub handle_stop_sink : Sink → Sink
unfolding process_stop_sink
handle_stop_sink k = process_stop_sink (record k { timer = none })

-- `handleCrashOperation`: where the whole node crashes the socket is not destroyed.
unfoldable pub handle_crash_sink : Bool → Sink → Sink
unfolding process_stop_sink
handle_crash_sink node_crashes k =
    let k' : Sink = record k { timer = none } in if node_crashes then k' else process_stop_sink k'

-- `handleMessageWhenUp` on the timer.
unfoldable pub handle_kind_sink : SinkKind → Option Bool → Sink → Outcome Sink
unfolding process_start_sink process_stop_sink
handle_kind_sink start group k = process_start_sink group k
handle_kind_sink stop group k = ok (process_stop_sink k)

-- The timer is no longer scheduled once it has fired.
unfoldable pub fire_sink : Option Bool → Sink → Outcome Sink
unfolding handle_kind_sink
fire_sink group k = elim k.timer [
  | none ↦ ok k
  | some e ↦ handle_kind_sink e.0 group (record k { timer = none })
]

module _ {S : Type 0} (os : Os) (r : Redis S) where
  -- `processPacket`, at the time `tms`.
  unfoldable pub process_packet : ℤ → Bytes → Sink → Client → S → Outcome (Done S Bytes × Sink)
  process_packet tms bytes k c s = do
    f ← read_frame bytes
    d ← post os r tms f.src_id f.dest_id f.payload c s
    ok (d, record k { num_received = k.num_received + 1 })
