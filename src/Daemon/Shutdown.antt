-- ===== src/Daemon/Shutdown.antt =====
-- EXIT and the end of the server loop of cpp/src/nsb_daemon.cc.
use nsb_ci.Prelude.{
  ℤ, Bytes, true, false, List, [], ◌∷◌, ◌++◌, some, ◌≡◌, ap, sym, ◌∙◌, arith, if_true,
}
use nsb_ci.Message.{Nsbm, Operation, get_manifest}
use nsb_ci.Daemon.{Daemon, Os, Effect, ok, ◌>>=◌, ok->>=, Reply}
use nsb_ci.Daemon.Init.{handle_init, handle_ping}
use nsb_ci.Daemon.Messages.{handle_send, handle_fetch, handle_post, handle_receive}
use nsb_ci.Daemon.Dispatch.{dispatch_on, handle_message, response_template}
use nsb_ci.Daemon.Server.{
  Accepted, Round, Server, Served, Scan, Turn, serve_ready, stays_with, serve_channel,
  serve_channels, join, accept_channel, after_select,
}
use nsb_ci.Daemon.Loop.{handle_message_daemon, scan_parts}
use nsb_ci.Daemon.Kept.{serve_channels_inv}

init-running : (d : Daemon) (m out : Nsbm) → (handle_init d m out).0.running ≡ d.running
unfolding handle_init
init-running d m out = ground arith

-- No operation starts a daemon that is stopped.
dispatch_on-stopped :
    (os : Os) (op : Operation) (d d' : Daemon) (m out : Nsbm) (r : Reply)
    → d.running ≡ false
    → dispatch_on op os d m out ≡ ok (d', r)
    → d'.running ≡ false
unfolding dispatch_on handle_ping handle_send handle_fetch handle_post handle_receive
dispatch_on-stopped os Operation.init d d' m out r down h = cc (init-running d m out)
dispatch_on-stopped os _ d d' m out r down h = ground arith

message-stopped :
    (os : Os) (fd : ℤ) (d d' : Daemon) (wire : Bytes) (effects : List Effect)
    → handle_message os fd d wire ≡ ok (d', effects)
    → d.running ≡ false
    → d'.running ≡ false
message-stopped os fd d d' wire effects h down =
    handle_message_daemon (λ x. x.running ≡ false) os fd d d' wire effects down
      (λ m r. dispatch_on-stopped os (get_manifest m).op d d' m response_template r down) h

exit-stopped :
    (os : Os) (fd : ℤ) (d d' : Daemon) (wire : Bytes) (m : Nsbm) (effects : List Effect)
    → os.parse wire ≡ some m
    → (get_manifest m).op ≡ Operation.exit
    → handle_message os fd d wire ≡ ok (d', effects)
    → d'.running ≡ false
unfolding handle_message
exit-stopped os fd d d' wire m effects parsed exit h = ground arith

-- A channel with an EXIT on it.
pub record SendsExit (os : Os) (r : Round) (fd : ℤ) : Type 0 where
  pub ready : r.fd_isset fd ≡ true
  pub piece : Bytes
  pub others : List Bytes
  pub read : r.pieces fd ≡ piece ∷ others
  pub message : Nsbm
  pub parsed : os.parse (join (piece ∷ others)) ≡ some message
  pub is_exit : (get_manifest message).op ≡ Operation.exit

channel-exit :
    (os : Os) (r : Round) (fd : ℤ) (d : Daemon) (c : Served)
    → SendsExit os r fd
    → serve_channel os r fd d ≡ ok c
    → c.daemon.running ≡ false
unfolding serve_channel
channel-exit os r fd d c x h =
    let ((d', effects), e, e') =
      ok->>= (handle_message os fd d (join (x.piece ∷ x.others))) stays_with (sym reads ∙ h) in
    let stopped : d'.running ≡ false =
      exit-stopped os fd d d' (join (x.piece ∷ x.others)) x.message effects x.parsed x.is_exit e in
    ground arith
  where
    reads :
        serve_channel os r fd d
        ≡ (handle_message os fd d (join (x.piece ∷ x.others)) >>= stays_with)
    reads =
        if_true (r.fd_isset fd) _ _ x.ready
        ∙ ap (λ (ps : List Bytes). serve_ready os fd ps d) x.read

-- After a scan that meets an EXIT on one of its channels the daemon is stopped, whatever the channels
-- before and after it sent.
pub serve_channels-exit :
    (os : Os) (r : Round) (before after : List ℤ) (fd : ℤ) (d : Daemon) (scan : Scan)
    → SendsExit os r fd
    → serve_channels os r (before ++ fd ∷ after) d ≡ ok scan
    → scan.daemon.running ≡ false
serve_channels-exit os r [] after fd d scan x h =
    let (c, s, ec, es, e, _, _) = scan_parts os r fd after d scan h in
    rw e (
      serve_channels_inv (λ y. y.running ≡ false) os (message-stopped os) r after c.daemon s
        (channel-exit os r fd d c x ec) es)
serve_channels-exit os r (b ∷ before) after fd d scan x h =
    let (c, s, ec, es, e, _, _) = scan_parts os r b (before ++ fd ∷ after) d scan h in
    rw e (serve_channels-exit os r before after fd c.daemon s x es)

accept-running :
    (a : Accepted) (s : Server) → (accept_channel a s).0.daemon.running ≡ s.daemon.running
unfolding accept_channel
accept-running a s = ground arith

pub after_select-exit :
    (os : Os) (r : Round) (before after : List ℤ) (fd : ℤ) (s : Server) (u : Turn)
    → SendsExit os r fd
    → s.channel_fds ≡ before ++ fd ∷ after
    → after_select os r s ≡ ok u
    → (u.goes_on ≡ true) × (u.server.daemon.running ≡ false)
unfolding after_select
after_select-exit os r before after fd s u x at h =
    let (scan, e, e') = ok->>= (serve_channels os r s.channel_fds s.daemon) _ h in
    let down =
      serve_channels-exit os r before after fd s.daemon scan x
        (ap (λ (fds : List ℤ). serve_channels os r fds s.daemon) (sym at) ∙ e) in
    let same =
      accept-running r.accepted (record s { daemon = scan.daemon; channel_fds = scan.kept }) in
    (ground arith, ground (arith, down, same))
