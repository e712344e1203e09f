-- ===== src/Daemon/Forwarding.antt =====
-- PUSH mode of cpp/src/nsb_daemon.cc: where SEND and POST forward a message.
use nsb_ci.Prelude.{
  Option-cases, Bool-cases, inl, inr, ◌≢◌, negsuc, ℤ, is_positive, Bytes, true, false, [], ◌∷◌,
  some, ◌≡◌, ◌⊎◌, arith,
}
use nsb_ci.Message.{Operation, get_manifest, Nsbm, SystemMode, SimulatorMode, get_metadata}
use nsb_ci.Store.Lookup.{find, first}
use nsb_ci.Daemon.{Daemon, Os, sent, ok, ClientDetails, forward_to, fd_settable}
use nsb_ci.Daemon.Messages.{handle_send, handle_post, forwarded}

-- The system lets a message through to a descriptor: `select` reports it, there is memory, and the
-- message serialises, to `wire`.
pub record Delivers (os : Os) (fd : ℤ) (m : Nsbm) (wire : Bytes) : Type 0 where
  pub ready : is_positive (os.select_write fd) ≡ true
  pub is_set : os.fd_isset fd ≡ true
  pub memory : os.malloc (os.byte_size_long m) ≡ true
  pub serialized : os.serialize m ≡ some wire

forward_to_lem :
    (os : Os) (fd : ℤ) (m : Nsbm) (wire : Bytes)
    → Delivers os fd m wire
    → forward_to os fd m ≡ sent fd wire ∷ []
unfolding forward_to
forward_to_lem os fd m wire h = ground arith

-- The simulator client that PUSH mode forwards the SENDs of a source to.
abbrev pub SimOf : Daemon → Bytes → ClientDetails → Type 0
SimOf d src c =
    ((d.cfg.simulator_mode ≡ SimulatorMode.system_wide) × (first d.sim_client_lookup ≡ some c))
    ⊎ ((d.cfg.simulator_mode ≡ SimulatorMode.per_node) × (find src d.sim_client_lookup ≡ some c))

-- A message with its operation turned into FORWARD.
abbrev pub as_forward : Nsbm → Nsbm
as_forward m = record m {
  manifest =
      some
        (record { op = Operation.forward; og = (get_manifest m).og; code = (get_manifest m).code });
}

-- The descriptor to which PUSH mode forwards a message: a SEND goes to the simulator client of its source,
-- a POST to the application client that is its destination.
abbrev pub PushesTo : Daemon → Nsbm → ℤ → Type 0
PushesTo d m x =
    (((get_manifest m).op ≡ Operation.send)
      × ((c : ClientDetails) × SimOf d (get_metadata m).src_id c × (c.ch_recv_fd ≡ x)))
    ⊎ (((get_manifest m).op ≡ Operation.post)
        × ((c : ClientDetails) × (find (get_metadata m).dest_id d.app_client_lookup ≡ some c)
            × (c.ch_recv_fd ≡ x)
            × (x ≢ negsuc 0)))

pub PushesTo-unique : (d : Daemon) (m : Nsbm) (x y : ℤ) → PushesTo d m x → PushesTo d m y → x ≡ y
PushesTo-unique d m x y p q = ground arith

-- What is sent to a descriptor that a message is forwarded to.
pub forward_to-cases :
    (os : Os) (x : ℤ) (f : Nsbm)
    → ((forward_to os x f ≡ []) × ((w : Bytes) → Delivers os x f w → ⊥))
      ⊎ ((w : Bytes) × (forward_to os x f ≡ sent x w ∷ []) × Delivers os x f w)
unfolding forward_to
forward_to-cases os x f = elim (Option-cases (os.serialize f)) [
  | inl e ↦ inl (ground arith, λ w h. cc (e, h.serialized))
  | inr (w, e) ↦ elim (Bool-cases (is_positive (os.select_write x))) [
    | inr no_time ↦ inl (ground arith, λ w h. cc (no_time, h.ready))
    | inl in_time ↦ elim (Bool-cases (os.fd_isset x)) [
      | inr unset ↦ inl (ground arith, λ w h. cc (unset, h.is_set))
      | inl there ↦ elim (Bool-cases (os.malloc (os.byte_size_long f))) [
        | inr full ↦ inl (ground arith, λ w h. cc (full, h.memory))
        | inl room ↦ inr (
          w,
          ground arith,
          record { ready = in_time; is_set = there; memory = room; serialized = e },
        )
      ]
    ]
  ]
]

-- In PUSH mode a SEND is forwarded, as it came but with the operation FORWARD, over the RECV channel
-- of the simulator client of its source (of the only one, system-wide), once, where that channel
-- accepts it. Nothing is stored, and no answer is wanted.
pub handle_send-push :
    (os : Os) (d : Daemon) (m out : Nsbm) (c : ClientDetails) (wire : Bytes)
    → d.cfg.system_mode ≡ SystemMode.push
    → SimOf d (get_metadata m).src_id c
    → fd_settable c.ch_recv_fd ≡ true
    → Delivers os c.ch_recv_fd (forwarded m) wire
    → handle_send os d m out
      ≡ ok (
        d,
        record {
          outgoing = forwarded m;
          response_required = false;
          effects = sent c.ch_recv_fd wire ∷ [];
        },
      )
unfolding handle_send
handle_send-push os d m out c wire push sim settable del =
    ground (arith, forward_to_lem os c.ch_recv_fd (forwarded m) wire del)

-- In PUSH mode a POST to an application client that is registered is forwarded, as it came but with
-- the operation FORWARD, over the RECV channel of that client, once, where that channel accepts it.
-- Nothing is stored, and no answer is wanted.
pub handle_post-push :
    (os : Os) (d : Daemon) (m out : Nsbm) (c : ClientDetails) (wire : Bytes)
    → d.cfg.system_mode ≡ SystemMode.push
    → find (get_metadata m).dest_id d.app_client_lookup ≡ some c
    → fd_settable c.ch_recv_fd ≡ true
    → Delivers os c.ch_recv_fd (forwarded m) wire
    → handle_post os d m out
      ≡ ok (
        d,
        record {
          outgoing = forwarded m;
          response_required = false;
          effects = sent c.ch_recv_fd wire ∷ [];
        },
      )
unfolding handle_post fd_settable
handle_post-push os d m out c wire push app settable del =
    ground (arith, forward_to_lem os c.ch_recv_fd (forwarded m) wire del)
