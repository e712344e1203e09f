-- ===== src/Daemon/Kept.antt =====
-- What every run of the server loop of cpp/src/nsb_daemon.cc keeps.
use nsb_ci.Prelude.{ℤ, Bytes, List, [], ◌∷◌, ◌≡◌, subst, inl, inr, arith}
use nsb_ci.Message.{get_manifest}
use nsb_ci.Store.Lookup.{emplace-IsSorted}
use nsb_ci.Daemon.{Daemon, Os, Effect, ok, ok->>=, ok_injective, channel_key}
use nsb_ci.Daemon.Dispatch.{handle_message, response_template}
use nsb_ci.Daemon.Registry.{IsRegistry, dispatch_on-IsRegistry}
use nsb_ci.Daemon.Server.{
  Accepted, no_connection, accept_failed, blocking, connected, Round, Server, Scan, Turn,
  serve_channels, accept_channel, after_select, round, server_loop,
}
use nsb_ci.Daemon.Loop.{channel-Serves, handle_message_daemon, loop_cases, round_cases, scan_parts}

-- An invariant of `handle_message` is one of the scan.
module _ (P : Daemon → Type 0) (os : Os)
    (step : (fd : ℤ) (d d' : Daemon) (wire : Bytes) (effects : List Effect)
      → handle_message os fd d wire ≡ ok (d', effects)
      → P d
      → P d') where
  pub serve_channels_inv :
      (r : Round) (fds : List ℤ) (d : Daemon) (scan : Scan)
      → P d
      → serve_channels os r fds d ≡ ok scan
      → P scan.daemon
  serve_channels_inv r [] d scan p h = unfold serve_channels in subst P (ground arith) p
  serve_channels_inv r (fd ∷ fds) d scan p h =
      let (c, s, ec, es, e, _, _) = scan_parts os r fd fds d scan h in
      let after : P c.daemon = elim (channel-Serves os r fd d c ec).1 [
        | inl same ↦ rw same p
        | inr (wire, e') ↦ step fd d c.daemon wire c.effects e' p
      ] in
      rw e (serve_channels_inv r fds c.daemon s after es)

  -- ... and, where accepting a connection keeps it too, of a round and of the whole loop.
  module _
      (accept_step : (a : Accepted) (s : Server)
        → P s.daemon
        → P (accept_channel a s).0.daemon) where
    after_select_inv :
        (r : Round) (s : Server) (t : Turn)
        → P s.daemon
        → after_select os r s ≡ ok t
        → P t.server.daemon
    unfolding after_select
    after_select_inv r s t p h =
        let (scan, e, e') = ok->>= (serve_channels os r s.channel_fds s.daemon) _ h in
        subst (λ (o : Turn). P o.server.daemon) (ok_injective e')
          (accept_step r.accepted (record s { daemon = scan.daemon; channel_fds = scan.kept })
            (serve_channels_inv r s.channel_fds s.daemon scan p e))

    round_inv :
        (r : Round) (s : Server) (t : Turn) → P s.daemon → round os r s ≡ ok t → P t.server.daemon
    round_inv r s t p h = elim (round_cases os r s t h) [
      | inl same ↦ rw same p
      | inr selected ↦ after_select_inv r s t p selected
    ]

    server_loop_inv :
        (rs : List Round) (s : Server) (t : Turn)
        → P s.daemon
        → server_loop os rs s ≡ ok t
        → P t.server.daemon
    server_loop_inv [] s t p h =
        unfold server_loop in
        subst (λ (x : Server). P x.daemon) {x = s} {y = t.server} (ground arith) p
    server_loop_inv (r ∷ rs) s t p h = elim (loop_cases os r rs s t h) [
      | inl same ↦ rw same p
      | inr (u, e, inl last) ↦ rw last (round_inv r s u p e)
      | inr (u, e, inr (v, e', last)) ↦
          rw last (server_loop_inv rs u.server v (round_inv r s u p e) e')
    ]

message-IsRegistry :
    (os : Os) (fd : ℤ) (d d' : Daemon) (wire : Bytes) (effects : List Effect)
    → handle_message os fd d wire ≡ ok (d', effects)
    → IsRegistry d
    → IsRegistry d'
message-IsRegistry os fd d d' wire effects h v =
    handle_message_daemon IsRegistry os fd d d' wire effects v
      (λ m r e. dispatch_on-IsRegistry os (get_manifest m).op d d' m response_template r v e) h

accept-IsRegistry :
    (a : Accepted) (s : Server) → IsRegistry s.daemon → IsRegistry (accept_channel a s).0.daemon
unfolding accept_channel
accept-IsRegistry (connected fd ip port) s v = record {
  sims = v.sims;
  apps = v.apps;
  fds = emplace-IsSorted (channel_key ip port) fd s.daemon.fd_lookup v.fds;
  single = v.single;
}
accept-IsRegistry no_connection s v = v
accept-IsRegistry accept_failed s v = v
accept-IsRegistry (blocking fd) s v = v

-- Whatever a run of the server loop meets, the client tables and the table of descriptors stay proper
-- maps, and a system-wide simulator keeps one client at most.
pub server_loop-IsRegistry :
    (os : Os) (rs : List Round) (s : Server) (t : Turn)
    → IsRegistry s.daemon
    → server_loop os rs s ≡ ok t
    → IsRegistry t.server.daemon
server_loop-IsRegistry os = server_loop_inv IsRegistry os (message-IsRegistry os) accept-IsRegistry
