-- ===== src/Daemon/Registry.antt =====
-- The client tables of the daemon, and INIT of cpp/src/nsb_daemon.cc, which fills them.
use nsb_ci.Prelude.{
  Bytes, bytes, true, [], none, some, ◌≡◌, refl, ◌≢◌, arith, subst, str_eq, if◌then◌else◌, is_some,
  length, ◌≤◌, ℤ, negsuc, ◌++◌, to_string, ◌⊎◌, inl, inr, Option-cases,
}
use nsb_ci.Message.{
  Nsbm, Operation, Originator, OpCode, IntroDetails, SimulatorMode, get_manifest, get_intro,
  has_intro,
}
use nsb_ci.Store.Lookup.{Lookup, find, emplace, IsSorted, emplace-IsSorted, find-emplace}
use nsb_ci.Daemon.{Daemon, Os, ok, Reply, ClientDetails, client_details, fd_of, channel_key}
use nsb_ci.Daemon.Init.{handle_init, handle_ping, init_response}
use nsb_ci.Daemon.Messages.{handle_send, handle_fetch, handle_post, handle_receive}
use nsb_ci.Daemon.Dispatch.{dispatch_on}

-- The tables are maps, and a system-wide simulator has at most one client.
pub record IsRegistry (d : Daemon) : Type 0 where
  pub sims : IsSorted d.sim_client_lookup
  pub apps : IsSorted d.app_client_lookup
  pub fds : IsSorted d.fd_lookup
  pub single : d.cfg.simulator_mode ≡ SimulatorMode.system_wide → length d.sim_client_lookup ≤ 1

emplace_one {ℓ} :
    {V : Type ℓ} (k : Bytes) (v : V) (m : Lookup V) → m ≡ [] → length (emplace k v m) ≤ 1
unfolding emplace
emplace_one k v m e = ground arith

init-IsRegistry : (d : Daemon) (m out : Nsbm) → IsRegistry d → IsRegistry (handle_init d m out).0
unfolding handle_init
init-IsRegistry d m out v = record {
  sims = ground (
    arith,
    v.sims,
    emplace-IsSorted (get_intro m).identifier (client_details m d.fd_lookup) d.sim_client_lookup
        v.sims,
    emplace-IsSorted (bytes "simulator") (client_details m d.fd_lookup) d.sim_client_lookup v.sims,
  );
  apps = ground (
    arith,
    v.apps,
    emplace-IsSorted (get_intro m).identifier (client_details m d.fd_lookup) d.app_client_lookup
        v.apps,
  );
  fds = ground (arith, v.fds);
  single = λ wide. ground (
    arith,
    v.single,
    emplace_one (bytes "simulator") (client_details m d.fd_lookup) d.sim_client_lookup,
  );
}

-- Nothing but INIT touches the tables.
pub record SameTables (d d' : Daemon) : Type 0 where
  pub sims : d'.sim_client_lookup ≡ d.sim_client_lookup
  pub apps : d'.app_client_lookup ≡ d.app_client_lookup
  pub fds : d'.fd_lookup ≡ d.fd_lookup
  pub cfg : d'.cfg ≡ d.cfg

module _ (os : Os) (d d' : Daemon) (m out : Nsbm) (r : Reply) where
  send-SameTables : handle_send os d m out ≡ ok (d', r) → SameTables d d'
  unfolding handle_send
  send-SameTables h = record {
    sims = ground arith;
    apps = ground arith;
    fds = ground arith;
    cfg = ground arith;
  }

  post-SameTables : handle_post os d m out ≡ ok (d', r) → SameTables d d'
  unfolding handle_post
  post-SameTables h = record {
    sims = ground arith;
    apps = ground arith;
    fds = ground arith;
    cfg = ground arith;
  }

  pub dispatch_on-SameTables :
      (op : Operation)
      → op ≢ Operation.init
      → dispatch_on op os d m out ≡ ok (d', r)
      → SameTables d d'
  unfolding dispatch_on handle_ping handle_fetch handle_receive
  dispatch_on-SameTables Operation.init other h = absurd (other refl)
  dispatch_on-SameTables Operation.send other h = send-SameTables h
  dispatch_on-SameTables Operation.post other h = post-SameTables h
  dispatch_on-SameTables _ other h = record {
    sims = ground arith;
    apps = ground arith;
    fds = ground arith;
    cfg = ground arith;
  }

SameTables-IsRegistry : (d d' : Daemon) → SameTables d d' → IsRegistry d → IsRegistry d'
SameTables-IsRegistry d d' s v = record {
  sims = rw s.sims v.sims;
  apps = rw s.apps v.apps;
  fds = rw s.fds v.fds;
  single = rw (s.sims, s.cfg) v.single;
}

-- Every operation keeps the client tables and the table of descriptors proper maps, and a system-wide
-- simulator at one client at most.
pub dispatch_on-IsRegistry :
    (os : Os) (op : Operation) (d d' : Daemon) (m out : Nsbm) (r : Reply)
    → IsRegistry d
    → dispatch_on op os d m out ≡ ok (d', r)
    → IsRegistry d'
unfolding dispatch_on
dispatch_on-IsRegistry os Operation.init d d' m out r v h =
    subst IsRegistry (ground arith) (init-IsRegistry d m out v)
dispatch_on-IsRegistry os op d d' m out r v h =
    SameTables-IsRegistry d d' (dispatch_on-SameTables os d d' m out r op (λ e. cc) h) v

-- The descriptor of the channel from an address and a port; -1 where no such channel was accepted.
abbrev pub IsFdOf : Lookup ℤ → Bytes → ℤ → ℤ → Type 0
IsFdOf fds address port fd =
    (find (address ++ (bytes ":" ++ to_string port)) fds ≡ some fd)
    ⊎ ((find (address ++ (bytes ":" ++ to_string port)) fds ≡ none) × (fd ≡ negsuc 0))

-- What is kept of an introduction: its name, address and ports, and the descriptor of each channel.
pub record Describes (i : IntroDetails) (fds : Lookup ℤ) (c : ClientDetails) : Type 0 where
  pub identifier : c.identifier ≡ i.identifier
  pub address : c.address ≡ i.address
  pub ctrl_port : c.ch_ctrl_port ≡ i.ch_ctrl
  pub send_port : c.ch_send_port ≡ i.ch_send
  pub recv_port : c.ch_recv_port ≡ i.ch_recv
  pub ctrl_fd : IsFdOf fds i.address i.ch_ctrl c.ch_ctrl_fd
  pub send_fd : IsFdOf fds i.address i.ch_send c.ch_send_fd
  pub recv_fd : IsFdOf fds i.address i.ch_recv c.ch_recv_fd

fd_of-IsFdOf :
    (fds : Lookup ℤ) (address : Bytes) (port : ℤ)
    → IsFdOf fds address port (fd_of fds (channel_key address port))
unfolding fd_of
fd_of-IsFdOf fds address port = elim (Option-cases (find (channel_key address port) fds)) [
  | inl e ↦ inr (e, ground (arith, e))
  | inr (fd, e) ↦ inl (ground (arith, e))
]

client_details-Describes :
    (m : Nsbm) (fds : Lookup ℤ) → Describes (get_intro m) fds (client_details m fds)
unfolding client_details
client_details-Describes m fds =
    let i = get_intro m in
    record {
      identifier = refl;
      address = refl;
      ctrl_port = refl;
      send_port = refl;
      recv_port = refl;
      ctrl_fd = fd_of-IsFdOf fds i.address i.ch_ctrl;
      send_fd = fd_of-IsFdOf fds i.address i.ch_send;
      recv_fd = fd_of-IsFdOf fds i.address i.ch_recv;
    }

-- An answer that is wanted, is the only thing sent, and says that the operation succeeded.
pub record Succeeds (op : Operation) (r : Reply) : Type 0 where
  pub wanted : r.response_required ≡ true
  pub quiet : r.effects ≡ []
  pub op_of : (get_manifest r.outgoing).op ≡ op
  pub og_of : (get_manifest r.outgoing).og ≡ Originator.daemon
  pub code_of : (get_manifest r.outgoing).code ≡ OpCode.success

init_response-Succeeds :
    (d : Daemon) (out : Nsbm) → Succeeds Operation.init (init_response d true out)
unfolding init_response
init_response-Succeeds d out = record {
  wanted = refl;
  quiet = refl;
  op_of = refl;
  og_of = refl;
  code_of = refl;
}

abbrev IsRegistered : Daemon → Bytes → ClientDetails → Daemon → Bytes → Type 0
IsRegistered d name c d' id = find id d'.app_client_lookup ≡ (
    if is_some (find id d.app_client_lookup)
    then find id d.app_client_lookup
    else if str_eq name id
    then some c
    else none)

-- INIT of an application client that gives its details is answered with SUCCESS. It registers the client,
-- unless its identifier is taken, with the name, the address and the ports that it gave, and for each
-- channel the descriptor that was accepted from that address and port, or -1 where there is none.
-- Every other entry, an entry that is there, and all else of the daemon stay as they are.
pub handle_init-app :
    (d : Daemon) (m out : Nsbm)
    → IsRegistry d
    → has_intro m ≡ true
    → (get_manifest m).og ≡ Originator.app_client
    → let (d', r) = handle_init d m out in
      ((c : ClientDetails) × Describes (get_intro m) d.fd_lookup c
        × ((id : Bytes) → IsRegistered d (get_intro m).identifier c d' id))
      × (d' ≡ record d { app_client_lookup = d'.app_client_lookup })
      × Succeeds Operation.init r
unfolding handle_init
handle_init-app d m out v intro app =
    let c = client_details m d.fd_lookup in
    let d' : Daemon = record d {
      app_client_lookup = emplace (get_intro m).identifier c d.app_client_lookup;
    } in
    let e : handle_init d m out ≡ (d', init_response d' true out) = ground arith in
    rw (e, handle_init)
      (
        (
          c,
          client_details-Describes m d.fd_lookup,
          λ id. find-emplace (get_intro m).identifier id c d.app_client_lookup v.apps,
        ),
        refl,
        init_response-Succeeds d' out,
      )
