-- ===== src/Daemon/Closes.antt =====
-- How often the server loop of cpp/src/nsb_daemon.cc closes each descriptor.
use nsb_ci.Prelude.{
  ℕ, ℤ, int_eq, ◌+◌, Bytes, List, [], ◌∷◌, ◌++◌, ◌≡◌, refl, inl, inr, ◌⊎◌, ◌≢◌, arith, Bool-cases,
  Option-cases, if◌then◌else◌, map,
}
use nsb_ci.Message.{Nsbm, Operation, SystemMode, get_manifest, get_metadata, set_op}
use nsb_ci.Daemon.{
  Daemon, Os, Effect, sent, closed, ok, ok->>=, Reply, ClientDetails, transmit, forward_to,
}
use nsb_ci.Daemon.Init.{handle_init, handle_ping}
use nsb_ci.Daemon.Messages.{
  handle_send, handle_fetch, handle_post, handle_receive, target_sim, target_fd, forward_to_sim,
}
use nsb_ci.Daemon.Dispatch.{dispatch_on, respond, handle_message, response_template}
use nsb_ci.Daemon.Server.{
  Accepted, no_connection, accept_failed, blocking, connected, Round, Server, Served, Scan, Turn,
  serve_ready, stays_with, serve_channel, serve_channels, accept_channel, after_select, join,
}
use nsb_ci.Daemon.Loop.{scan_parts}

-- How often a descriptor is closed, and how often it stands in a list.
abbrev pub closes : ℤ → List Effect → ℕ
closes x [] = 0
closes x (sent fd wire ∷ es) = closes x es
closes x (closed fd ∷ es) = (if int_eq x fd then 1 else 0) + closes x es

abbrev pub times : ℤ → List ℤ → ℕ
times x [] = 0
times x (fd ∷ fds) = (if int_eq x fd then 1 else 0) + times x fds

-- The descriptor that `accept` has given.
abbrev pub given : Accepted → List ℤ
given (blocking fd) = fd ∷ []
given (connected fd ip port) = fd ∷ []
given _ = []

pub closes-append : (x : ℤ) (es fs : List Effect) → closes x (es ++ fs) ≡ closes x es + closes x fs
closes-append x [] fs = omega arith
closes-append x (sent fd wire ∷ es) fs = closes-append x es fs
closes-append x (closed fd ∷ es) fs = omega (arith, closes-append x es fs)

pub times-append : (x : ℤ) (l k : List ℤ) → times x (l ++ k) ≡ times x l + times x k
times-append x [] k = omega arith
times-append x (fd ∷ l) k = omega (arith, times-append x l k)

pub closes-map : (x : ℤ) (fds : List ℤ) → closes x (map closed fds) ≡ times x fds
closes-map x [] = refl
closes-map x (fd ∷ fds) = omega (arith, closes-map x fds)

SystemMode-cases : (mode : SystemMode) → (mode ≡ SystemMode.push) ⊎ (mode ≢ SystemMode.push)
SystemMode-cases SystemMode.push = inl refl
SystemMode-cases SystemMode.pull = inr (λ e. cc)
SystemMode-cases (SystemMode.other n) = inr (λ e. cc)

-- Handling a message closes nothing.
module _ (x : ℤ) (os : Os) where
  transmit-closes : (fd : ℤ) (m : Nsbm) → closes x (transmit os fd m) ≡ 0
  unfolding transmit
  transmit-closes fd m = ground arith

  forward_to-closes : (fd : ℤ) (m : Nsbm) → closes x (forward_to os fd m) ≡ 0
  unfolding forward_to
  forward_to-closes fd m = ground (arith, transmit-closes fd m)

  module _ (d d' : Daemon) (m out : Nsbm) (r : Reply) where
    forward_to_sim-closes :
        (cs : List ClientDetails) → forward_to_sim os d m cs ≡ ok (d', r) → closes x r.effects ≡ 0
    unfolding forward_to_sim
    forward_to_sim-closes [] h = ground arith
    forward_to_sim-closes (c ∷ cs) h =
        ground (arith, forward_to-closes c.ch_recv_fd (set_op Operation.forward m))

    send-closes : handle_send os d m out ≡ ok (d', r) → closes x r.effects ≡ 0
    unfolding handle_send
    send-closes h = elim (SystemMode-cases d.cfg.system_mode) [
      | inl push ↦
          let (target, e, e') =
            ok->>= (target_sim d (get_metadata m).src_id) (forward_to_sim os d m) {result = (d', r)}
              (ground (arith, push, h)) in
          forward_to_sim-closes target e'
      | inr other ↦ ground arith
    ]

    post-closes : handle_post os d m out ≡ ok (d', r) → closes x r.effects ≡ 0
    unfolding handle_post
    post-closes h = ground (
      arith,
      forward_to-closes (target_fd d (get_metadata m).dest_id) (set_op Operation.forward m),
    )

    init-closes : closes x (handle_init d m out).1.effects ≡ 0
    unfolding handle_init
    init-closes = ground arith

    dispatch_on-closes :
        (op : Operation) → dispatch_on op os d m out ≡ ok (d', r) → closes x r.effects ≡ 0
    unfolding dispatch_on handle_ping handle_fetch handle_receive
    dispatch_on-closes Operation.init h = cc (init-closes)
    dispatch_on-closes Operation.send h = send-closes h
    dispatch_on-closes Operation.post h = post-closes h
    dispatch_on-closes _ h = ground arith

  respond-closes :
      (fd : ℤ) (d d' : Daemon) (r : Reply) (effects : List Effect)
      → closes x r.effects ≡ 0
      → respond os fd (d, r) ≡ ok (d', effects)
      → closes x effects ≡ 0
  unfolding respond
  respond-closes fd d d' r effects none_yet h = elim (Bool-cases r.response_required) [
    | inl wanted ↦ ground (
      arith,
      none_yet,
      transmit-closes fd r.outgoing,
      closes-append x r.effects (transmit os fd r.outgoing),
    )
    | inr unwanted ↦ ground (arith, none_yet, closes-append x r.effects [])
  ]

  handle_message-closes :
      (fd : ℤ) (d d' : Daemon) (wire : Bytes) (effects : List Effect)
      → handle_message os fd d wire ≡ ok (d', effects)
      → closes x effects ≡ 0
  unfolding handle_message
  handle_message-closes fd d d' wire effects h = elim (Option-cases (os.parse wire)) [
    | inl e ↦ ground arith
    | inr (m, e) ↦
        let ((d'', r), dispatched, responded) =
          ok->>= (dispatch_on (get_manifest m).op os d m response_template) (respond os fd)
            {result = (d', effects)} (ground (arith, e, h)) in
        respond-closes fd d'' d' r effects
          (dispatch_on-closes d d'' m response_template r (get_manifest m).op dispatched) responded
  ]

  serve_ready-closes :
      (fd : ℤ) (pieces : List Bytes) (d : Daemon) (c : Served)
      → serve_ready os fd pieces d ≡ ok c
      → closes x c.effects + (if c.stays then times x (fd ∷ []) else 0) ≡ times x (fd ∷ [])
  unfolding serve_ready
  serve_ready-closes fd [] d c h = ground arith
  serve_ready-closes fd (p ∷ ps) d c h =
      let ((d', effects), e, e') = ok->>= (handle_message os fd d (join (p ∷ ps))) stays_with h in
      ground (arith, handle_message-closes fd d d' (join (p ∷ ps)) effects e)

  accept-closes :
      (a : Accepted) (s : Server)
      → let (s', effects) = accept_channel a s in
        (s'.server_fd ≡ s.server_fd)
        × (closes x effects + times x s'.channel_fds ≡ times x s.channel_fds + times x (given a))
  unfolding accept_channel
  accept-closes no_connection s = (refl, omega arith)
  accept-closes accept_failed s = (refl, omega arith)
  accept-closes (blocking fd) s = (refl, omega arith)
  accept-closes (connected fd ip port) s =
      (refl, omega (arith, times-append x s.channel_fds (fd ∷ [])))

  serve_channel-closes :
      (r : Round) (fd : ℤ) (d : Daemon) (c : Served)
      → serve_channel os r fd d ≡ ok c
      → closes x c.effects + (if c.stays then times x (fd ∷ []) else 0) ≡ times x (fd ∷ [])
  unfolding serve_channel
  serve_channel-closes r fd d c h = elim (Bool-cases (r.fd_isset fd)) [
    | inr quiet ↦ ground (arith, quiet)
    | inl ready ↦ serve_ready-closes fd (r.pieces fd) d c (ground (arith, ready, h))
  ]

  serve_channels-closes :
      (r : Round) (fds : List ℤ) (d : Daemon) (scan : Scan)
      → serve_channels os r fds d ≡ ok scan
      → closes x scan.effects + times x scan.kept ≡ times x fds
  serve_channels-closes r [] d scan h = unfold serve_channels in ground arith
  serve_channels-closes r (fd ∷ fds) d scan h =
      let (c, s, ec, es, _, k, e) = scan_parts os r fd fds d scan h in
      ground (
        arith,
        k,
        e,
        closes-append x c.effects s.effects,
        serve_channel-closes r fd d c ec,
        serve_channels-closes r fds c.daemon s es,
      )

  -- A round closes what it does not keep, of the channels and of what `accept` gave.
  pub after_select-closes :
      (r : Round) (s : Server) (u : Turn)
      → after_select os r s ≡ ok u
      → (u.server.server_fd ≡ s.server_fd)
        × (closes x u.effects + times x u.server.channel_fds
            ≡ times x s.channel_fds + times x (given r.accepted))
  unfolding after_select
  after_select-closes r s u h =
      let (scan, e, e') = ok->>= (serve_channels os r s.channel_fds s.daemon) _ h in
      let s' : Server = record s { daemon = scan.daemon; channel_fds = scan.kept } in
      let (same, counted) = accept-closes r.accepted s' in
      (
        ground (arith, same, e'),
        ground (
          arith,
          e',
          counted,
          serve_channels-closes r s.channel_fds s.daemon scan e,
          closes-append x scan.effects (accept_channel r.accepted s').1,
        ),
      )
