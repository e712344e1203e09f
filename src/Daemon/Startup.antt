-- ===== src/Daemon/Startup.antt =====
-- The constructor and `configure` of cpp/src/nsb_daemon.cc, and the calls of `start_server` that open the listening socket. The configuration file is what yaml-cpp reads
-- from it: a field that is missing or does not convert makes `as` throw.
use nsb_ci.Prelude.{
  ℤ, negsuc, int_eq, is_negative, Bytes, Bool, false, List, [], ◌∷◌, Option, none, some,
  if◌then◌else◌,
}
use nsb_ci.Message.{Config, new_config, to_system_mode, to_simulator_mode}
use nsb_ci.Daemon.{Daemon, Effect, closed, Outcome, ok, thrown, ◌>>=◌}

-- `YAML::LoadFile(filename)`, and `as` of each key that is read.
pub record ConfigFile : Type 0 where
  pub is_null : Bool
  pub mode : Option ℤ
  pub simulator_mode : Option ℤ
  pub use_db : Option Bool
  pub db_address : Option Bytes
  pub db_port : Option ℤ

abbrev pub or_throw {ℓ} : {A : Type ℓ} → Option A → Outcome A
or_throw none = thrown
or_throw (some a) = ok a

-- `configure`; `none` stands for a file that cannot be loaded.
unfoldable pub configure : Option ConfigFile → Config → Outcome Config
configure none cfg = thrown
configure (some f) cfg = if f.is_null then ok cfg else (do
  sys_mode ← or_throw f.mode
  sim_mode ← or_throw f.simulator_mode
  db ← or_throw f.use_db
  let modes : Config = record cfg {
    system_mode = to_system_mode sys_mode;
    simulator_mode = to_simulator_mode sim_mode;
    use_db = db;
  }
  if db
      then (do
        address ← or_throw f.db_address
        port ← or_throw f.db_port
        ok (record modes { db_address = address; db_port = port }))
      else ok modes)

-- `NSBDaemon(s_port, filename)`
unfoldable pub new_daemon : ℤ → Option ConfigFile → Outcome Daemon
unfolding configure
new_daemon s_port file = do
  cfg ← configure file new_config
  ok (record {
    cfg = cfg;
    running = false;
    server_port = s_port;
    sim_client_lookup = [];
    app_client_lookup = [];
    fd_lookup = [];
    tx_buffer = [];
    rx_buffer = [];
  })

-- What the calls that open the server's socket return.
pub record Setup : Type 0 where
  pub socket : ℤ
  pub setsockopt : ℤ
  pub get_flags : ℤ
  pub set_flags : ℤ
  pub bind : ℤ
  pub listen : ℤ

-- The listening descriptor, unless a call failed; a socket that was opened is then closed.
unfoldable pub open_server : Setup → Option ℤ × List Effect
open_server s =
    let failed : Option ℤ × List Effect = (none, closed s.socket ∷ []) in
    if int_eq s.socket (negsuc 0)
    then (none, [])
    else if is_negative s.setsockopt
    then failed
    else if int_eq s.get_flags (negsuc 0)
    then failed
    else if int_eq s.set_flags (negsuc 0)
    then failed
    else if int_eq s.bind (negsuc 0)
    then failed
    else if int_eq s.listen (negsuc 0)
    then failed
    else (some s.socket, [])
