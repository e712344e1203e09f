-- ===== src/Unified/Client.antt =====
-- `NSBClient`, `NSBAppClient` and `NSBSimClient` of cpp/rabbit/src/NSBUnified.cpp, on what `recvMsg`
-- returns: a text, or `none` for false. The operations but `exit` are those of a client that has not exited.
use nsb_ci.Prelude.{
  ℤ, pos, Bytes, Bool, true, false, List, [], ◌∷◌, is_empty, Option, none, some, if◌then◌else◌,
}
use nsb_ci.Message.{
  Nsbm, new_nsbm, Operation, OpCode, SystemMode, SimulatorMode, Config, IntroDetails, set_manifest,
  set_src_id, set_dest_id, get_manifest, get_config,
}
use nsb_ci.Daemon.{Os}
use nsb_ci.Client.{Channel, serialize_as_string}
use nsb_ci.Client.Setup.{SockName, intro_of}
use nsb_ci.Unified.{Unified, socket_backend, rabbit_backend, Message}

-- `buildBaseMsg`, with the code that every caller then sets.
abbrev pub base_message : Operation → OpCode → Unified → Nsbm
base_message op code c = set_manifest op c.origin code new_nsbm

-- A message on a channel, for nobody in particular.
abbrev pub on_channel : Os → Channel → Nsbm → Message
on_channel os ch m = record { channel = ch; wire = serialize_as_string os m; dest = [] }

-- The introduction; a name that `getsockname` does not give leaves its fields unset.
unfoldable pub intro_unified : (Channel → SockName) → Unified → IntroDetails
intro_unified sockname c = elim c.backend [
  | socket_backend ↦ intro_of sockname c.id
  | rabbit_backend ↦ record {
    identifier = c.id;
    address = c.host;
    ch_ctrl = pos 0;
    ch_send = pos 0;
    ch_recv = pos 0;
  }
]

-- `Config(msg)`
abbrev pub config_unified : Nsbm → Config
config_unified m =
    let c = get_config m in
    record {
      system_mode = c.sys_mode;
      simulator_mode = c.sim_mode;
      use_db = c.use_db;
      db_address = c.db_address;
      db_port = c.db_port;
      db_num = c.db_num;
    }

-- The codes of either daemon.
abbrev pub is_fine : OpCode → Bool
is_fine OpCode.success = true
is_fine OpCode.daemon_response = true
is_fine _ = false

abbrev pub is_init : Operation → Bool
is_init Operation.init = true
is_init _ = false

abbrev pub is_ping : Operation → Bool
is_ping Operation.ping = true
is_ping _ = false

-- The operations that `receive` and `fetch` take a payload from.
abbrev pub is_received : Operation → Bool
is_received Operation.send = true
is_received Operation.receive = true
is_received Operation.forward = true
is_received Operation.post = true
is_received _ = false

abbrev pub is_fetched : Operation → Bool
is_fetched Operation.send = true
is_fetched Operation.fetch = true
is_fetched Operation.forward = true
is_fetched _ = false

unfoldable pub ping_unified : Os → Option Bytes → Unified → Bool × List Message
ping_unified os response c =
    let asks = on_channel os Channel.ctrl (base_message Operation.ping OpCode.success c) ∷ [] in
    elim response [
      | none ↦ (false, asks)
      | some wire ↦ elim (os.parse wire) [
        | none ↦ (false, asks)
        | some m ↦
            (if is_ping (get_manifest m).op then is_fine (get_manifest m).code else false, asks)
      ]
    ]

-- `exit`; a second call does nothing.
unfoldable pub exit_unified : Os → Unified → Unified × List Message
exit_unified os c =
    if c.is_open
    then (
      record c { is_open = false },
      on_channel os Channel.ctrl (base_message Operation.exit OpCode.success c) ∷ [],
    )
    else (c, [])

-- The timeout that `receive` and `fetch` wait with: over sockets and in PUSH mode they do not wait.
unfoldable pub wait_unified : Unified → ℤ → ℤ
wait_unified c timeout = elim c.backend [
  | rabbit_backend ↦ timeout
  | socket_backend ↦ elim c.cfg.system_mode [ SystemMode.push ↦ pos 0 | _ ↦ timeout ]
]

-- The request of RECEIVE, over sockets and in PULL mode; an empty name stands for the client.
unfoldable pub receive_asks_unified : Os → Bytes → Unified → List Message
receive_asks_unified os dest c = elim c.backend [
  | rabbit_backend ↦ []
  | socket_backend ↦ elim c.cfg.system_mode [
    | SystemMode.pull ↦
        on_channel os Channel.recv (
          set_dest_id (if is_empty dest then c.id else dest)
            (base_message Operation.receive OpCode.success c))
        ∷ []
    | _ ↦ []
  ]
]

-- The request of FETCH. A system-wide simulator that names no source leaves the metadata out.
unfoldable pub fetch_message_unified : SimulatorMode → Bytes → Unified → Nsbm
fetch_message_unified mode src c =
    let m = base_message Operation.fetch OpCode.success c in
    if is_empty src
    then elim mode [ SimulatorMode.per_node ↦ set_src_id c.id m | _ ↦ m ]
    else set_src_id src m

unfoldable pub fetch_asks_unified : Os → Bytes → Unified → List Message
unfolding fetch_message_unified
fetch_asks_unified os src c = elim c.backend [
  | rabbit_backend ↦ []
  | socket_backend ↦ elim c.cfg.system_mode [
    | SystemMode.pull ↦
        on_channel os Channel.recv (fetch_message_unified c.cfg.simulator_mode src c) ∷ []
    | _ ↦ []
  ]
]
