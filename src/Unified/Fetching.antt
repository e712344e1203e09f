-- ===== src/Unified/Fetching.antt =====
-- What the daemon of cpp/src/nsb_daemon.cc answers to the FETCH of the client of
-- cpp/rabbit/src/NSBUnified.cpp.
use nsb_ci.Prelude.{[], ◌≡◌, refl}
use nsb_ci.Message.{Nsbm, Operation, SimulatorMode, entry_exists}
use nsb_ci.Daemon.{Daemon}
use nsb_ci.Daemon.Messages.{handle_fetch}
use nsb_ci.Daemon.Answers.{empty_response}
use nsb_ci.Unified.{Unified}
use nsb_ci.Unified.Client.{fetch_message_unified}

-- A system-wide simulator client of this kind that fetches from any source, as it does by default, sends
-- a request without metadata, and the daemon then answers that there is no message and takes none,
-- whatever waits in its buffer.
pub handle_fetch-fetch_message_unified :
    (d : Daemon) (c : Unified) (out : Nsbm)
    → c.cfg.simulator_mode ≡ SimulatorMode.system_wide
    → handle_fetch d (fetch_message_unified c.cfg.simulator_mode [] c) out
      ≡ (d, empty_response Operation.fetch out)
unfolding handle_fetch fetch_message_unified entry_exists
handle_fetch-fetch_message_unified d c out wide = rw wide refl
