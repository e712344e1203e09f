-- ===== src/Daemon.antt =====
-- `NSBDaemon` of cpp/include/nsb_daemon.h and cpp/src/nsb_daemon.cc: its state, the operating system
-- and the codec that it calls, and the operations on one message. A send is an effect in the order in
-- which it is made. Log lines are left out.
pub mod Init
pub mod Messages
pub mod Dispatch
pub mod Queues
pub mod Refinement
pub mod Answers
pub mod Received
pub mod Registry
pub mod Forwarding
pub mod Pushes
pub mod Faults
pub mod Writes
pub mod Startup
pub mod Server
pub mod Loop
pub mod Kept
pub mod Closes
pub mod Shutdown
pub mod Ending
pub mod Program
use nsb_ci.Prelude.{
  ℕ, ℤ, pos, negsuc, ltb, is_positive, Bytes, bytes, to_string, Bool, true, false, List, [], ◌∷◌,
  ◌++◌, Option, none, some, if◌then◌else◌, ◌≡◌, refl,
}
use nsb_ci.Message.{
  Nsbm, Config, MessageEntry, get_intro, get_payload, get_msg_key, set_payload, set_msg_key,
}
use nsb_ci.Store.Lookup.{Lookup, find}

-- What the daemon asks of the system: `select` for one descriptor that is to be written, `malloc`,
-- and the generated methods of the message.
pub record Os : Type 0 where
  pub select_write : ℤ → ℤ
  pub fd_isset : ℤ → Bool
  pub malloc : ℕ → Bool
  pub byte_size_long : Nsbm → ℕ
  pub serialize : Nsbm → Option Bytes
  pub parse : Bytes → Option Nsbm

pub data Effect : Type 0 where
  sent : ℤ → Bytes → Effect
  closed : ℤ → Effect

-- A call returns, throws an exception past its caller, or has no defined behaviour.
pub data Outcome {ℓ} (A : Type ℓ) : Type ℓ where
  ok : A → Outcome A
  thrown : Outcome A
  undefined : Outcome A

infixl 5 ◌>>=◌
abbrev pub ◌>>=◌ {ℓ κ} : {X : Type ℓ} {Y : Type κ} → Outcome X → (X → Outcome Y) → Outcome Y
thrown >>= k = thrown
undefined >>= k = undefined
ok x >>= k = k x

-- A bind that returned has parts that returned.
pub ok->>= {ℓ κ} :
    {X : Type ℓ} {Y : Type κ} (step : Outcome X) (k : X → Outcome Y) {result : Y}
    → (step >>= k) ≡ ok result
    → (x : X) × (step ≡ ok x) × (k x ≡ ok result)
ok->>= thrown k e = cc
ok->>= undefined k e = cc
ok->>= (ok x) k e = (x, refl, e)

pub ok_injective {ℓ} : {A : Type ℓ} {a b : A} → ok a ≡ ok b → a ≡ b
ok_injective h = cc

-- `struct ClientDetails`
pub record ClientDetails : Type 0 where
  pub identifier : Bytes
  pub address : Bytes
  pub ch_ctrl_port : ℤ
  pub ch_ctrl_fd : ℤ
  pub ch_send_port : ℤ
  pub ch_send_fd : ℤ
  pub ch_recv_port : ℤ
  pub ch_recv_fd : ℤ

pub record Daemon : Type 0 where
  pub cfg : Config
  pub running : Bool
  pub server_port : ℤ
  pub sim_client_lookup : Lookup ClientDetails
  pub app_client_lookup : Lookup ClientDetails
  pub fd_lookup : Lookup ℤ
  pub tx_buffer : List MessageEntry
  pub rx_buffer : List MessageEntry

-- "address:port", the key of `fd_lookup`.
abbrev pub channel_key : Bytes → ℤ → Bytes
channel_key address port = address ++ (bytes ":" ++ to_string port)

unfoldable pub fd_of : Lookup ℤ → Bytes → ℤ
fd_of fds key = elim (find key fds) [ none ↦ negsuc 0 | some fd ↦ fd ]

-- `ClientDetails(nsb_msg, fd_lookup)`
unfoldable pub client_details : Nsbm → Lookup ℤ → ClientDetails
client_details m fds =
    let i = get_intro m in
    record {
      identifier = i.identifier;
      address = i.address;
      ch_ctrl_port = i.ch_ctrl;
      ch_ctrl_fd = fd_of fds (channel_key i.address i.ch_ctrl);
      ch_send_port = i.ch_send;
      ch_send_fd = fd_of fds (channel_key i.address i.ch_send);
      ch_recv_port = i.ch_recv;
      ch_recv_fd = fd_of fds (channel_key i.address i.ch_recv);
    }

-- `msg_get_payload_obj`
unfoldable pub msg_get_payload_obj : Config → Nsbm → Bytes
msg_get_payload_obj cfg m = if cfg.use_db then get_msg_key m else get_payload m

-- `msg_set_payload_obj`
unfoldable pub msg_set_payload_obj : Config → Bytes → Nsbm → Nsbm
msg_set_payload_obj cfg p m = if cfg.use_db then set_msg_key p m else set_payload p m

-- What a handler leaves: the message to answer with, whether it is wanted, and what it sent itself.
pub record Reply : Type 0 where
  pub outgoing : Nsbm
  pub response_required : Bool
  pub effects : List Effect

-- Allocate a buffer, serialise into it and send it. Both failures give up in silence.
unfoldable pub transmit : Os → ℤ → Nsbm → List Effect
transmit os fd m =
    if os.malloc (os.byte_size_long m)
    then elim (os.serialize m) [ none ↦ [] | some wire ↦ sent fd wire ∷ [] ]
    else []

-- `transmit`, once `select` says that the descriptor can be written.
unfoldable pub forward_to : Os → ℤ → Nsbm → List Effect
unfolding transmit
forward_to os fd m =
    if is_positive (os.select_write fd)
    then (if os.fd_isset fd then transmit os fd m else [])
    else []

-- `FD_SET` is defined for descriptors from 0 up to `FD_SETSIZE`, which is 1024.
unfoldable pub fd_settable : ℤ → Bool
fd_settable (pos n) = ltb n 1024
fd_settable (negsuc n) = false

-- An early return, with no answer.
abbrev pub no_response : Nsbm → Reply
no_response out = record { outgoing = out; response_required = false; effects = [] }
