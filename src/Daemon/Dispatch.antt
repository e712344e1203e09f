-- ===== src/Daemon/Dispatch.antt =====
-- `NSBDaemon::handle_message`, which finds the handler of a message and sends its answer, with
-- `stop` and `is_running` of cpp/src/nsb_daemon.cc.
use nsb_ci.Prelude.{ℤ, Bytes, Bool, false, List, [], ◌∷◌, ◌++◌, none, some, if◌then◌else◌}
use nsb_ci.Message.{
  Nsbm, new_nsbm, Operation, Originator, OpCode, get_manifest, set_manifest, default_manifest,
}
use nsb_ci.Daemon.{Daemon, Os, Effect, Outcome, ok, ◌>>=◌, Reply, no_response, transmit}
use nsb_ci.Daemon.Init.{handle_init, handle_ping}
use nsb_ci.Daemon.Messages.{handle_send, handle_fetch, handle_post, handle_receive}

unfoldable pub stop : Daemon → Daemon
stop d = if d.running then record d { running = false } else d

unfoldable pub is_running : Daemon → Bool
is_running d = d.running

-- `nsb_response`, whose manifest `mutable_manifest` has created.
abbrev pub response_template : Nsbm
response_template = record new_nsbm { manifest = some default_manifest }

-- The `switch` on the operation. `other` is a number that the schema does not have.
unfoldable pub dispatch_on : Operation → Os → Daemon → Nsbm → Nsbm → Outcome (Daemon × Reply)
unfolding stop
dispatch_on Operation.init os d m out = ok (handle_init d m out)
dispatch_on Operation.ping os d m out = ok (handle_ping d m out)
dispatch_on Operation.send os d m out = handle_send os d m out
dispatch_on Operation.fetch os d m out = ok (handle_fetch d m out)
dispatch_on Operation.post os d m out = handle_post os d m out
dispatch_on Operation.receive os d m out = ok (handle_receive d m out)
dispatch_on Operation.exit os d m out = ok (stop d, no_response out)
dispatch_on _ os d m out =
    ok (d, no_response (set_manifest Operation.ping Originator.daemon OpCode.failure out))

unfoldable pub dispatch : Os → Daemon → Nsbm → Outcome (Daemon × Reply)
unfolding dispatch_on
dispatch os d m = dispatch_on (get_manifest m).op os d m response_template

unfoldable pub respond : Os → ℤ → Daemon × Reply → Outcome (Daemon × List Effect)
unfolding transmit
respond os fd (d, r) =
    ok (d, r.effects ++ (if r.response_required then transmit os fd r.outgoing else []))

unfoldable pub handle_parsed : Os → ℤ → Daemon → Nsbm → Outcome (Daemon × List Effect)
unfolding dispatch respond
handle_parsed os fd d m = dispatch os d m >>= respond os fd

unfoldable pub handle_message : Os → ℤ → Daemon → Bytes → Outcome (Daemon × List Effect)
unfolding handle_parsed
handle_message os fd d wire = elim (os.parse wire) [
  | none ↦ ok (d, [])
  | some m ↦ handle_parsed os fd d m
]

-- The messages of one connection after another, the answers left out.
unfoldable pub run : Os → Daemon → List Nsbm → Outcome Daemon
run os d [] = ok d
run os d (m ∷ ms) = dispatch os d m >>= λ (d', r). run os d' ms
