-- ===== src/Message.antt =====
-- The message `nsbm` of proto/nsb.proto, as the generated accessors show it, with `MessageEntry` and
-- `Config` of cpp/include/nsb.h. Enumerations of proto3 are open: a number outside the schema is
-- kept, here under `other`. A field that is not set reads as its default.
use nsb_ci.Prelude.{
  ℤ, pos, negsuc, zero, suc, Bytes, Bool, true, false, ◌&&◌, not, is_empty, Option, none, some, [],
  if◌then◌else◌,
}

pub data Operation : Type 0 where
  ping init send fetch post receive forward exit : Operation
  other : ℤ → Operation

pub data Originator : Type 0 where
  daemon app_client sim_client : Originator
  other : ℤ → Originator

pub data OpCode : Type 0 where
  success failure client_request daemon_response implicit_target explicit_target message
        no_message :
      OpCode
  other : ℤ → OpCode

-- `code == nsb::nsbm::Manifest::MESSAGE`
abbrev pub is_message : OpCode → Bool
is_message OpCode.message = true
is_message _ = false

pub data SystemMode : Type 0 where
  pull push : SystemMode
  other : ℤ → SystemMode

pub data SimulatorMode : Type 0 where
  system_wide per_node : SimulatorMode
  other : ℤ → SimulatorMode

-- `static_cast<Config::SystemMode>(n)`
unfoldable pub to_system_mode : ℤ → SystemMode
to_system_mode (pos zero) = SystemMode.pull
to_system_mode (pos (suc zero)) = SystemMode.push
to_system_mode (pos (suc (suc n))) = SystemMode.other (pos (suc (suc n)))
to_system_mode (negsuc n) = SystemMode.other (negsuc n)

-- `static_cast<Config::SimulatorMode>(n)`
unfoldable pub to_simulator_mode : ℤ → SimulatorMode
to_simulator_mode (pos zero) = SimulatorMode.system_wide
to_simulator_mode (pos (suc zero)) = SimulatorMode.per_node
to_simulator_mode (pos (suc (suc n))) = SimulatorMode.other (pos (suc (suc n)))
to_simulator_mode (negsuc n) = SimulatorMode.other (negsuc n)

pub record Manifest : Type 0 where
  pub op : Operation
  pub og : Originator
  pub code : OpCode

pub record Metadata : Type 0 where
  pub src_id : Bytes
  pub dest_id : Bytes
  pub payload_size : ℤ

pub record ConfigParams : Type 0 where
  pub sys_mode : SystemMode
  pub sim_mode : SimulatorMode
  pub use_db : Bool
  pub db_address : Bytes
  pub db_port : ℤ
  pub db_num : ℤ

pub record IntroDetails : Type 0 where
  pub identifier : Bytes
  pub address : Bytes
  pub ch_ctrl : ℤ
  pub ch_send : ℤ
  pub ch_recv : ℤ

-- `oneof message`
pub data Body : Type 0 where
  unset : Body
  payload : Bytes → Body
  msg_key : Bytes → Body
  intro : IntroDetails → Body
  config : ConfigParams → Body

pub record Nsbm : Type 0 where
  pub manifest : Option Manifest
  pub metadata : Option Metadata
  pub body : Body

abbrev pub default_manifest : Manifest
default_manifest = record { op = Operation.ping; og = Originator.daemon; code = OpCode.success }

abbrev pub default_metadata : Metadata
default_metadata = record { src_id = []; dest_id = []; payload_size = pos 0 }

abbrev pub default_config : ConfigParams
default_config = record {
  sys_mode = SystemMode.pull;
  sim_mode = SimulatorMode.system_wide;
  use_db = false;
  db_address = [];
  db_port = pos 0;
  db_num = pos 0;
}

abbrev pub default_intro : IntroDetails
default_intro = record {
  identifier = [];
  address = [];
  ch_ctrl = pos 0;
  ch_send = pos 0;
  ch_recv = pos 0;
}

-- `nsb::nsbm()`
abbrev pub new_nsbm : Nsbm
new_nsbm = record { manifest = none; metadata = none; body = Body.unset }

abbrev pub or_default {ℓ} : {A : Type ℓ} → Option A → A → A
or_default none d = d
or_default (some a) d = a

-- `message.manifest()`, `.metadata()`, `.intro()`, `.config()`, `.payload()`, `.msg_key()`
abbrev pub get_manifest : Nsbm → Manifest
get_manifest m = or_default m.manifest default_manifest

abbrev pub get_metadata : Nsbm → Metadata
get_metadata m = or_default m.metadata default_metadata

abbrev pub get_intro : Nsbm → IntroDetails
get_intro m = elim m.body [ Body.intro i ↦ i | _ ↦ default_intro ]

abbrev pub get_config : Nsbm → ConfigParams
get_config m = elim m.body [ Body.config c ↦ c | _ ↦ default_config ]

abbrev pub get_payload : Nsbm → Bytes
get_payload m = elim m.body [ Body.payload p ↦ p | _ ↦ [] ]

abbrev pub get_msg_key : Nsbm → Bytes
get_msg_key m = elim m.body [ Body.msg_key k ↦ k | _ ↦ [] ]

abbrev pub has_intro : Nsbm → Bool
has_intro m = elim m.body [ Body.intro i ↦ true | _ ↦ false ]

abbrev pub has_config : Nsbm → Bool
has_config m = elim m.body [ Body.config c ↦ true | _ ↦ false ]

abbrev pub has_payload : Nsbm → Bool
has_payload m = elim m.body [ Body.payload p ↦ true | _ ↦ false ]

-- `mutable_manifest()->set_op(op)` and the like, which create the part that they set.
abbrev pub set_op : Operation → Nsbm → Nsbm
set_op op m = record m { manifest = some (record (get_manifest m) { op = op }) }

abbrev pub set_manifest : Operation → Originator → OpCode → Nsbm → Nsbm
set_manifest op og code m = record m { manifest = some (record { op = op; og = og; code = code }) }

abbrev pub set_code : OpCode → Nsbm → Nsbm
set_code code m = record m { manifest = some (record (get_manifest m) { code = code }) }

abbrev pub set_metadata : Bytes → Bytes → ℤ → Nsbm → Nsbm
set_metadata src dest size m = record m {
  metadata = some (record { src_id = src; dest_id = dest; payload_size = size });
}

abbrev pub set_dest_id : Bytes → Nsbm → Nsbm
set_dest_id dest m = record m { metadata = some (record (get_metadata m) { dest_id = dest }) }

abbrev pub set_src_id : Bytes → Nsbm → Nsbm
set_src_id src m = record m { metadata = some (record (get_metadata m) { src_id = src }) }

abbrev pub set_payload : Bytes → Nsbm → Nsbm
set_payload p m = record m { body = Body.payload p }

abbrev pub set_msg_key : Bytes → Nsbm → Nsbm
set_msg_key k m = record m { body = Body.msg_key k }

-- `struct MessageEntry`
pub record MessageEntry : Type 0 where
  pub source : Bytes
  pub destination : Bytes
  pub payload_obj : Bytes
  pub payload_size : ℤ

abbrev pub blank_entry : MessageEntry
blank_entry = record { source = []; destination = []; payload_obj = []; payload_size = pos 0 }

-- `MessageEntry::exists`
unfoldable pub entry_exists : MessageEntry → Bool
entry_exists e =
    not (is_empty e.source) && not (is_empty e.destination) && not (is_empty e.payload_obj)

-- `struct Config`
pub record Config : Type 0 where
  pub system_mode : SystemMode
  pub simulator_mode : SimulatorMode
  pub use_db : Bool
  pub db_address : Bytes
  pub db_port : ℤ
  pub db_num : ℤ

-- `Config()`
abbrev pub new_config : Config
new_config = record {
  system_mode = SystemMode.pull;
  simulator_mode = SimulatorMode.system_wide;
  use_db = false;
  db_address = [];
  db_port = pos 0;
  db_num = pos 0;
}

-- `Config(nsb::nsbm msg)`. Without a database the two numbers are not initialised: what the storage
-- held before is an argument.
unfoldable pub config_of : ℤ → ℤ → Nsbm → Config
config_of port_before num_before m =
    let cfg = get_config m in
    record {
      system_mode = cfg.sys_mode;
      simulator_mode = cfg.sim_mode;
      use_db = cfg.use_db;
      db_address = if cfg.use_db then cfg.db_address else [];
      db_port = if cfg.use_db then cfg.db_port else port_before;
      db_num = if cfg.use_db then cfg.db_num else num_before;
    }
