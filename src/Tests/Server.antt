-- ===== src/Tests/Server.antt =====
-- The server loop's theorems at concrete data.
use nsb_ci.Prelude.{ℤ, ◌++◌, true, some, none, pos, bytes, false, [], ◌∷◌, ◌≡◌, refl, arith, str_eq}
use nsb_ci.Daemon.{closed, channel_key, fd_settable}
use nsb_ci.Daemon.Dispatch.{handle_message, stop}
use nsb_ci.Daemon.Registry.{IsRegistry}
use nsb_ci.Daemon.Startup.{ConfigFile, Setup, new_daemon, open_server}
use nsb_ci.Daemon.Program.{main, start, start_server, finish, ClosesLast, main-ClosesLast}
use nsb_ci.Message.{new_config, to_system_mode, to_simulator_mode}
use nsb_ci.Store.Lookup.{emplace}
use nsb_ci.Daemon.Server.{Round, connected, Scan, Turn, server_loop}
use nsb_ci.Daemon.Kept.{server_loop-IsRegistry}
use nsb_ci.Daemon.Closes.{closes, times}
use nsb_ci.Daemon.Ending.{exit-Ended, Ended}
use nsb_ci.Tests.Data.{empty_daemon, pulling, serving, exit_round, exit_alice, os}

abbrev scanned : Scan
scanned = record {
  daemon = record pulling { running = false };
  kept = pos 5 ∷ [];
  effects = closed (pos 4) ∷ [];
}

abbrev finished : Turn
finished = record {
  server = record { daemon = scanned.daemon; server_fd = pos 3; channel_fds = pos 5 ∷ [] };
  goes_on = false;
  effects = closed (pos 4) ∷ closed (pos 5) ∷ closed (pos 3) ∷ [];
}

pulling-IsRegistry : IsRegistry pulling
pulling-IsRegistry = record { sims = tt; apps = tt; fds = tt; single = λ e. omega arith }

server_loop-IsRegistry_example : IsRegistry finished.server.daemon
unfolding server_loop handle_message str_eq fd_settable
server_loop-IsRegistry_example =
    server_loop-IsRegistry os (exit_round ∷ []) serving finished pulling-IsRegistry refl

exit-Ended_example :
    Ended finished
    × (finished.server.daemon.running ≡ false)
    × ((x : ℤ)
        → closes x finished.effects ≡ times x (serving.channel_fds ++ serving.server_fd ∷ []))
unfolding server_loop handle_message str_eq fd_settable
exit-Ended_example =
    exit-Ended os exit_round (exit_round ∷ []) (pos 4 ∷ []) [] (pos 5) serving finished refl refl
      refl refl
      (record {
        ready = refl;
        piece = 3 ∷ [];
        others = [];
        read = refl;
        message = exit_alice;
        parsed = refl;
        is_exit = refl;
      })
      refl

-- A program that is given a file, accepts one channel, and is told to exit on it.
abbrev file : ConfigFile
file = record {
  is_null = false;
  mode = some (pos 0);
  simulator_mode = some (pos 0);
  use_db = some false;
  db_address = none;
  db_port = none;
}

abbrev setup : Setup
setup = record {
  socket = pos 3;
  setsockopt = pos 0;
  get_flags = pos 2;
  set_flags = pos 0;
  bind = pos 0;
  listen = pos 0;
}

abbrev accept_round : Round
accept_round = record exit_round { accepted = connected (pos 5) (bytes "10.0.0.1") (pos 5001) }

abbrev done : Turn
done = record {
  server = record {
    daemon = record empty_daemon {
      cfg = new_config;
      running = false;
      fd_lookup = (channel_key (bytes "10.0.0.1") (pos 5001), pos 5) ∷ [];
    };
    server_fd = pos 3;
    channel_fds = pos 5 ∷ [];
  };
  goes_on = false;
  effects = closed (pos 5) ∷ closed (pos 3) ∷ [];
}

main-ClosesLast_example : (done.server.daemon.running ≡ false) × ClosesLast (pos 3) done.effects
unfolding main start start_server finish new_daemon open_server server_loop handle_message str_eq
    fd_settable emplace stop to_system_mode to_simulator_mode
main-ClosesLast_example =
    main-ClosesLast os (bytes "config.yaml" ∷ []) (λ f. true) (λ f. some file) setup
      (accept_round ∷ exit_round ∷ []) done refl refl
