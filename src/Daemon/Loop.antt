-- ===== src/Daemon/Loop.antt =====
-- What runs of the server loop of cpp/src/nsb_daemon.cc keep, and how they end.
use nsb_ci.Prelude.{
  ℤ, Bytes, Bool, true, List, [], ◌∷◌, ◌++◌, some, ◌≡◌, sym, ◌∙◌, subst, ◌⊎◌, inl, inr, arith, ◌&&◌,
  not, is_empty, is_positive, is_negative, if◌then◌else◌, keep, if_true, Bool-cases, Option-cases,
}
use nsb_ci.Message.{Nsbm, get_manifest}
use nsb_ci.Daemon.{Daemon, Os, Effect, Outcome, ok, thrown, undefined, ◌>>=◌, ok->>=, Reply}
use nsb_ci.Daemon.Dispatch.{dispatch_on, handle_message, respond, response_template}
use nsb_ci.Daemon.Server.{
  Round, Server, Served, Scan, Turn, serve_ready, stays_with, serve_channel, serve_channels, join,
  after_select, round, server_loop, next_turn,
}

respond_daemon :
    (os : Os) (fd : ℤ) (o : Outcome (Daemon × Reply)) (d' : Daemon) (effects : List Effect)
    → (o >>= respond os fd) ≡ ok (d', effects)
    → (r : Reply) × (o ≡ ok (d', r))
unfolding respond
respond_daemon os fd (ok (d, r)) d' effects h = (r, ground arith)
respond_daemon os fd thrown d' effects h = cc
respond_daemon os fd undefined d' effects h = cc

-- What a message leaves is what its handler leaves; a message that does not parse leaves all.
pub handle_message_daemon :
    (P : Daemon → Type 0) (os : Os) (fd : ℤ) (d d' : Daemon) (wire : Bytes) (effects : List Effect)
    → P d
    → ((m : Nsbm) (r : Reply)
        → dispatch_on (get_manifest m).op os d m response_template ≡ ok (d', r)
        → P d')
    → handle_message os fd d wire ≡ ok (d', effects)
    → P d'
unfolding handle_message
handle_message_daemon P os fd d d' wire effects base step h = elim (Option-cases (os.parse wire)) [
  | inl broken ↦ subst P (ground arith) base
  | inr (m, e) ↦
      let (r, e') =
        respond_daemon os fd (dispatch_on (get_manifest m).op os d m response_template) d' effects
          (sym (at_message m e) ∙ h) in
      step m r e'
]
  where
    at_message :
        (m : Nsbm)
        → os.parse wire ≡ some m
        → handle_message os fd d wire
          ≡ (dispatch_on (get_manifest m).op os d m response_template >>= respond os fd)
    at_message m e = rw (e, handle_message)

-- The channels that stay: those with something to read, and those that `select` did not report.
abbrev pub stays_open : Round → ℤ → Bool
stays_open r fd = not (r.fd_isset fd && is_empty (r.pieces fd))

-- What one channel does: nothing to the daemon, or what a message does.
abbrev pub Serves : Os → ℤ → Daemon → Served → Type 0
Serves os fd d c =
    (c.daemon ≡ d) ⊎ ((wire : Bytes) × (handle_message os fd d wire ≡ ok (c.daemon, c.effects)))

ready-Serves :
    (os : Os) (fd : ℤ) (ps : List Bytes) (d : Daemon) (c : Served)
    → serve_ready os fd ps d ≡ ok c
    → (c.stays ≡ not (is_empty ps)) × Serves os fd d c
unfolding serve_ready
ready-Serves os fd [] d c h = (ground arith, inl (ground arith))
ready-Serves os fd (p ∷ ps) d c h =
    let ((d', effects), e, e') = ok->>= (handle_message os fd d (join (p ∷ ps))) stays_with h in
    (ground arith, inr (join (p ∷ ps), e ∙ ground arith))

pub channel-Serves :
    (os : Os) (r : Round) (fd : ℤ) (d : Daemon) (c : Served)
    → serve_channel os r fd d ≡ ok c
    → (c.stays ≡ stays_open r fd) × Serves os fd d c
unfolding serve_channel
channel-Serves os r fd d c h = elim (Bool-cases (r.fd_isset fd)) [
  | inl set ↦ let (k, s) = ready-Serves os fd (r.pieces fd) d c (ground arith) in (ground arith, s)
  | inr idle ↦ (ground arith, inl (ground arith))
]

-- A scan that returns has scanned the first channel, and then the others.
pub scan_parts :
    (os : Os) (r : Round) (fd : ℤ) (fds : List ℤ) (d : Daemon) (scan : Scan)
    → serve_channels os r (fd ∷ fds) d ≡ ok scan
    → (c : Served) × (s : Scan) × (serve_channel os r fd d ≡ ok c)
      × (serve_channels os r fds c.daemon ≡ ok s)
      × (scan.daemon ≡ s.daemon)
      × (scan.kept ≡ (if c.stays then fd ∷ s.kept else s.kept))
      × (scan.effects ≡ c.effects ++ s.effects)
unfolding serve_channels
scan_parts os r fd fds d scan h =
    let (c, ec, rest) = ok->>= (serve_channel os r fd d) _ h in
    let (s, es, last) = ok->>= (serve_channels os r fds c.daemon) _ rest in
    (c, s, ec, es, ground arith, ground arith, ground arith)

-- The scan keeps exactly the channels that sent something or that `select` did not report, in their
-- order, whatever the messages do.
pub kept-serve_channels :
    (os : Os) (r : Round) (fds : List ℤ) (d : Daemon) (scan : Scan)
    → serve_channels os r fds d ≡ ok scan
    → scan.kept ≡ keep (stays_open r) fds
unfolding keep
kept-serve_channels os r [] d scan h = unfold serve_channels in ground arith
kept-serve_channels os r (fd ∷ fds) d scan h =
    let (c, s, ec, es, _, k, _) = scan_parts os r fd fds d scan h in
    let (stays, _) = channel-Serves os r fd d c ec in
    k ∙ ground (arith, stays, kept-serve_channels os r fds c.daemon s es)

pub round_cases :
    (os : Os) (r : Round) (s : Server) (t : Turn)
    → round os r s ≡ ok t
    → (t.server ≡ s) ⊎ (after_select os r s ≡ ok t)
unfolding round
round_cases os r s t h = elim (Bool-cases (is_negative r.activity)) [
  | inl failed ↦ inl (ground arith)
  | inr fine ↦ elim (Bool-cases (is_positive r.activity)) [
    | inl some_ready ↦ inr (ground arith)
    | inr timeout ↦ inl (ground arith)
  ]
]

-- After a round the loop ends at once, or goes on with the rest.
abbrev Continues : Os → List Round → Turn → Turn → Type 0
Continues os rs u t =
    (t.server ≡ u.server)
    ⊎ ((v : Turn) × (server_loop os rs u.server ≡ ok v) × (t.server ≡ v.server))

next_cases :
    (os : Os) (rs : List Round) (u t : Turn)
    → next_turn (server_loop os rs) u ≡ ok t
    → Continues os rs u t
unfolding next_turn
next_cases os rs u t h = elim (Bool-cases u.goes_on) [
  | inl more ↦
      let (v, e, e') =
        ok->>= (server_loop os rs u.server)
          (λ (w : Turn). ok (record w { effects = u.effects ++ w.effects })) {result = t}
          (ground arith) in
      inr (v, e, ground arith)
  | inr done ↦ inl (ground arith)
]

pub loop_cases :
    (os : Os) (r : Round) (rs : List Round) (s : Server) (t : Turn)
    → server_loop os (r ∷ rs) s ≡ ok t
    → (t.server ≡ s) ⊎ ((u : Turn) × (round os r s ≡ ok u) × Continues os rs u t)
unfolding server_loop
loop_cases os r rs s t h = elim (Bool-cases s.daemon.running) [
  | inl up ↦
      let (u, e, e') = ok->>= (round os r s) (next_turn (server_loop os rs)) (unfolded up ∙ h) in
      inr (u, e, next_cases os rs u t e')
  | inr down ↦ inl (ground arith)
]
  where
    unfolded :
        s.daemon.running ≡ true
        → (round os r s >>= next_turn (server_loop os rs)) ≡ server_loop os (r ∷ rs) s
    unfolded up = sym (if_true s.daemon.running _ _ up)
