-- ===== src/Daemon/Init.antt =====
-- INIT and PING: `handle_init` and `handle_ping` of cpp/src/nsb_daemon.cc.
use nsb_ci.Prelude.{pos, bytes, Bool, true, false, [], is_empty, not, if◌then◌else◌}
use nsb_ci.Message.{
  Nsbm, Operation, Originator, OpCode, SimulatorMode, Body, Config, ConfigParams, get_manifest,
  get_intro, has_intro, set_manifest,
}
use nsb_ci.Store.Lookup.{emplace}
use nsb_ci.Daemon.{Daemon, Reply, no_response, client_details}

-- The configuration in the answer to INIT.
unfoldable pub config_params : Config → ConfigParams
config_params cfg = record {
  sys_mode = cfg.system_mode;
  sim_mode = cfg.simulator_mode;
  use_db = cfg.use_db;
  db_address = if cfg.use_db then cfg.db_address else [];
  db_port = if cfg.use_db then cfg.db_port else pos 0;
  db_num = if cfg.use_db then cfg.db_num else pos 0;
}

unfoldable pub init_response : Daemon → Bool → Nsbm → Reply
unfolding config_params
init_response d ok? out = record {
  outgoing =
      record (set_manifest Operation.init Originator.daemon
        (if ok? then OpCode.success else OpCode.failure) out) {
          body = Body.config (config_params d.cfg);
        };
  response_required = true;
  effects = [];
}

-- The branches of `handle_init` for a client whose details are given.
unfoldable pub init_client : Daemon → Nsbm → Nsbm → Daemon × Reply
unfolding init_response client_details
init_client d m out =
    let id = (get_intro m).identifier in
    let details = client_details m d.fd_lookup in
    elim (get_manifest m).og [
      | Originator.app_client ↦
          let d' = record d { app_client_lookup = emplace id details d.app_client_lookup } in
          (d', init_response d' true out)
      | Originator.sim_client ↦ elim d.cfg.simulator_mode [
        | SimulatorMode.per_node ↦
            let d' = record d { sim_client_lookup = emplace id details d.sim_client_lookup } in
            (d', init_response d' true out)
        | SimulatorMode.system_wide ↦
            if not (is_empty d.sim_client_lookup)
            then (d, init_response d false out)
            else (let d' = record d {
              sim_client_lookup = emplace (bytes "simulator") details d.sim_client_lookup;
            } in
                (d', init_response d' true out))
        | SimulatorMode.other n ↦ (d, init_response d false out)
      ]
      | _ ↦ (d, no_response out)
    ]

unfoldable pub handle_init : Daemon → Nsbm → Nsbm → Daemon × Reply
unfolding init_client
handle_init d m out = if has_intro m then init_client d m out else (d, no_response out)

unfoldable pub handle_ping : Daemon → Nsbm → Nsbm → Daemon × Reply
handle_ping d m out = (
  d,
  record {
    outgoing = set_manifest Operation.ping Originator.daemon OpCode.success out;
    response_required = true;
    effects = [];
  },
)
