-- ===== src/Daemon/Faults.antt =====
-- Which messages `NSBDaemon::handle_message` of cpp/src/nsb_daemon.cc survives.
use nsb_ci.Prelude.{
  ℤ, negsuc, int_eq_iff, Bytes, Bool, true, false, Option, none, some, ◌≡◌, refl, ◌⊎◌, inl, inr,
  arith, Option-cases, subst, sym, ◌∙◌, ◌↔◌,
}
use nsb_ci.Message.{Nsbm, Operation, SystemMode, SimulatorMode, get_manifest, get_metadata}
use nsb_ci.Store.Lookup.{find, first}
use nsb_ci.Daemon.{
  Daemon, Os, Outcome, ok, thrown, undefined, ◌>>=◌, Reply, ClientDetails, fd_settable,
}
use nsb_ci.Daemon.Messages.{handle_send, handle_post, target_fd}
use nsb_ci.Daemon.Dispatch.{dispatch_on, respond, handle_message, response_template}

abbrev pub returns {ℓ} : {A : Type ℓ} → Outcome A → Bool
returns (ok a) = true
returns _ = false

abbrev pub throws {ℓ} : {A : Type ℓ} → Outcome A → Bool
throws thrown = true
throws _ = false

-- A client over whose RECV channel `FD_SET` and `select` are defined.
abbrev pub IsReachable : Option ClientDetails → Type 0
IsReachable o = (c : ClientDetails) × (o ≡ some c) × (fd_settable c.ch_recv_fd ≡ true)

-- What a message needs in order to be handled: in PUSH mode, a SEND a simulator client for its source (or,
-- system-wide, any at all) over whose RECV channel `FD_SET` is defined, and a POST that the descriptor
-- which is found for its destination is -1, or one for which `FD_SET` is defined.
pub record IsServed (d : Daemon) (m : Nsbm) : Type 0 where
  pub per_node :
      (get_manifest m).op ≡ Operation.send
      → d.cfg.system_mode ≡ SystemMode.push
      → d.cfg.simulator_mode ≡ SimulatorMode.per_node
      → IsReachable (find (get_metadata m).src_id d.sim_client_lookup)
  pub system_wide :
      (get_manifest m).op ≡ Operation.send
      → d.cfg.system_mode ≡ SystemMode.push
      → d.cfg.simulator_mode ≡ SimulatorMode.system_wide
      → IsReachable (first d.sim_client_lookup)
  pub app :
      (get_manifest m).op ≡ Operation.post
      → d.cfg.system_mode ≡ SystemMode.push
      → (target_fd d (get_metadata m).dest_id ≡ negsuc 0)
        ⊎ (fd_settable (target_fd d (get_metadata m).dest_id) ≡ true)

module _ (os : Os) (d : Daemon) (m out : Nsbm) where
  send-returns :
      (d.cfg.system_mode ≡ SystemMode.push
        → d.cfg.simulator_mode ≡ SimulatorMode.per_node
        → IsReachable (find (get_metadata m).src_id d.sim_client_lookup))
      → (d.cfg.system_mode ≡ SystemMode.push
          → d.cfg.simulator_mode ≡ SimulatorMode.system_wide
          → IsReachable (first d.sim_client_lookup))
      → returns (handle_send os d m out) ≡ true
  unfolding handle_send
  send-returns per_node system_wide = ground arith

  returns-per_node :
      returns (handle_send os d m out) ≡ true
      → d.cfg.system_mode ≡ SystemMode.push
      → d.cfg.simulator_mode ≡ SimulatorMode.per_node
      → IsReachable (find (get_metadata m).src_id d.sim_client_lookup)
  unfolding handle_send
  returns-per_node r push per_node =
      elim (Option-cases (find (get_metadata m).src_id d.sim_client_lookup)) [
        | inl missing ↦ absurd (ground arith)
        | inr (c, e) ↦ (c, e, ground arith)
      ]

  returns-system_wide :
      returns (handle_send os d m out) ≡ true
      → d.cfg.system_mode ≡ SystemMode.push
      → d.cfg.simulator_mode ≡ SimulatorMode.system_wide
      → IsReachable (first d.sim_client_lookup)
  unfolding handle_send
  returns-system_wide r push wide = elim (Option-cases (first d.sim_client_lookup)) [
    | inl missing ↦ absurd (ground arith)
    | inr (c, e) ↦ (c, e, ground arith)
  ]

  post-returns :
      (d.cfg.system_mode ≡ SystemMode.push
        → (target_fd d (get_metadata m).dest_id ≡ negsuc 0)
          ⊎ (fd_settable (target_fd d (get_metadata m).dest_id) ≡ true))
      → returns (handle_post os d m out) ≡ true
  unfolding handle_post
  post-returns app = ground (arith, int_eq_iff (target_fd d (get_metadata m).dest_id) (negsuc 0))

  returns-app :
      returns (handle_post os d m out) ≡ true
      → d.cfg.system_mode ≡ SystemMode.push
      → (target_fd d (get_metadata m).dest_id ≡ negsuc 0)
        ⊎ (fd_settable (target_fd d (get_metadata m).dest_id) ≡ true)
  unfolding handle_post
  returns-app r push = ground (arith, int_eq_iff (target_fd d (get_metadata m).dest_id) (negsuc 0))

dispatch_on-returns :
    (os : Os) (op : Operation) (d : Daemon) (m out : Nsbm)
    → (get_manifest m).op ≡ op
    → IsServed d m
    → returns (dispatch_on op os d m out) ≡ true
unfolding dispatch_on
dispatch_on-returns os Operation.send d m out e s =
    send-returns os d m out (s.per_node e) (s.system_wide e)
dispatch_on-returns os Operation.post d m out e s = post-returns os d m out (s.app e)
dispatch_on-returns os _ d m out e s = refl

returns-IsServed :
    (os : Os) (d : Daemon) (m out : Nsbm)
    → returns (dispatch_on (get_manifest m).op os d m out) ≡ true
    → IsServed d m
unfolding dispatch_on
returns-IsServed os d m out r = record {
  per_node = λ e. returns-per_node os d m out (sent_there e);
  system_wide = λ e. returns-system_wide os d m out (sent_there e);
  app = λ e. returns-app os d m out (subst (λ op. returns (dispatch_on op os d m out) ≡ true) e r);
}
  where
    sent_there : (get_manifest m).op ≡ Operation.send → returns (handle_send os d m out) ≡ true
    sent_there e = subst (λ op. returns (dispatch_on op os d m out) ≡ true) e r

respond-returns :
    (os : Os) (fd : ℤ) (o : Outcome (Daemon × Reply)) → returns (o >>= respond os fd) ≡ returns o
unfolding respond
respond-returns os fd (ok (d, r)) = refl
respond-returns os fd thrown = refl
respond-returns os fd undefined = refl

respond-throws :
    (os : Os) (fd : ℤ) (o : Outcome (Daemon × Reply)) → throws (o >>= respond os fd) ≡ throws o
unfolding respond
respond-throws os fd (ok (d, r)) = refl
respond-throws os fd thrown = refl
respond-throws os fd undefined = refl

handle_message-throws :
    (os : Os) (fd : ℤ) (d : Daemon) (wire : Bytes) (m : Nsbm)
    → os.parse wire ≡ some m
    → throws (handle_message os fd d wire)
      ≡ throws (dispatch_on (get_manifest m).op os d m response_template)
unfolding handle_message
handle_message-throws os fd d wire m parsed =
    rw (parsed, handle_message)
      (respond-throws os fd (dispatch_on (get_manifest m).op os d m response_template))

handle_message-dispatch :
    (os : Os) (fd : ℤ) (d : Daemon) (wire : Bytes) (m : Nsbm)
    → os.parse wire ≡ some m
    → returns (handle_message os fd d wire)
      ≡ returns (dispatch_on (get_manifest m).op os d m response_template)
unfolding handle_message
handle_message-dispatch os fd d wire m parsed =
    rw (parsed, handle_message)
      (respond-returns os fd (dispatch_on (get_manifest m).op os d m response_template))

-- A SEND in PUSH mode whose source has no simulator client, where each node has its own.
abbrev pub IsOrphan : Daemon → Nsbm → Type 0
IsOrphan d m =
    ((get_manifest m).op ≡ Operation.send)
    × (d.cfg.system_mode ≡ SystemMode.push)
    × (d.cfg.simulator_mode ≡ SimulatorMode.per_node)
    × (find (get_metadata m).src_id d.sim_client_lookup ≡ none)

module _ (os : Os) (d : Daemon) (m out : Nsbm) where
  send-IsOrphan :
      (get_manifest m).op ≡ Operation.send → throws (handle_send os d m out) ≡ true → IsOrphan d m
  unfolding handle_send
  send-IsOrphan is_send h = elim (Option-cases (find (get_metadata m).src_id d.sim_client_lookup)) [
    | inl missing ↦ (is_send, ground arith, ground arith, missing)
    | inr (c, e) ↦ absurd (ground arith)
  ]

  IsOrphan-send : IsOrphan d m → throws (handle_send os d m out) ≡ true
  unfolding handle_send
  IsOrphan-send (is_send, push, node, missing) = ground arith

  post_throws_not : throws (handle_post os d m out) ≡ false
  unfolding handle_post
  post_throws_not = ground arith

dispatch_on-IsOrphan :
    (os : Os) (op : Operation) (d : Daemon) (m out : Nsbm)
    → (get_manifest m).op ≡ op
    → (throws (dispatch_on op os d m out) ≡ true) ↔ IsOrphan d m
unfolding dispatch_on
dispatch_on-IsOrphan os Operation.send d m out e =
    (send-IsOrphan os d m out e, IsOrphan-send os d m out)
dispatch_on-IsOrphan os Operation.post d m out e =
    (λ h. cc (post_throws_not os d m out, h), λ h. cc (e, h.0))
dispatch_on-IsOrphan os _ d m out e = (λ h. cc, λ h. cc (e, h.0))

-- `handle_message` on a message that parses: it returns normally exactly where `IsServed` holds. That is,
-- in PUSH mode a SEND needs a simulator client for its source (or, system-wide, any at all) whose RECV
-- descriptor is from 0 up to 1023, and a POST to a registered destination whose RECV descriptor is not -1
-- needs that descriptor to be from 0 up to 1023; everything else returns. It throws, past the server loop,
-- exactly on a SEND in PUSH mode with a simulator per node whose source has no simulator client. So what
-- is left, an empty table system-wide or a descriptor out of range, is undefined.
pub handle_message-returns_iff :
    (os : Os) (fd : ℤ) (d : Daemon) (wire : Bytes) (m : Nsbm)
    → os.parse wire ≡ some m
    → ((returns (handle_message os fd d wire) ≡ true) ↔ IsServed d m)
      × ((throws (handle_message os fd d wire) ≡ true) ↔ IsOrphan d m)
handle_message-returns_iff os fd d wire m parsed =
    let e = handle_message-dispatch os fd d wire m parsed in
    let e' = handle_message-throws os fd d wire m parsed in
    let (to, from) = dispatch_on-IsOrphan os (get_manifest m).op d m response_template refl in
    (
      (
        λ r. returns-IsServed os d m response_template (sym e ∙ r),
        λ s. e ∙ dispatch_on-returns os (get_manifest m).op d m response_template refl s,
      ),
      (λ h. to (sym e' ∙ h), λ o. e' ∙ from o),
    )
