-- ===== src/Daemon/Ending.antt =====
-- How the server loop of cpp/src/nsb_daemon.cc ends.
use nsb_ci.Prelude.{
  ℤ, ◌+◌, true, false, List, [], ◌∷◌, ◌++◌, ◌≡◌, refl, ap, sym, ◌∙◌, inl, inr, arith, Bool-cases,
  if_true, if_false, map, is_negative, is_positive, append_assoc,
}
use nsb_ci.Daemon.{Os, Effect, closed, Outcome, ok, ◌>>=◌, ok->>=, ok_injective}
use nsb_ci.Daemon.Server.{
  Round, Server, Turn, after_select, round, close_all, server_loop, next_turn, ended,
}
use nsb_ci.Daemon.Closes.{
  closes, times, given, closes-append, times-append, closes-map, after_select-closes,
}
use nsb_ci.Daemon.Shutdown.{SendsExit, after_select-exit}

-- One close of each channel that a server has, in their order, and then one of the listening socket.
abbrev pub closings : Server → List Effect
closings s = map closed s.channel_fds ++ closed s.server_fd ∷ []

-- The daemon of a loop that has ended, and what the loop did last.
pub record Ended (t : Turn) : Type 0 where
  pub over : t.goes_on ≡ false
  pub before : List Effect
  pub closes : t.effects ≡ before ++ closings t.server

ended-Ended : (s : Server) (effects : List Effect) (t : Turn) → ended s effects ≡ ok t → Ended t
unfolding close_all
ended-Ended s effects t h = record { over = ground arith; before = effects; closes = ground arith }

-- Effects before those of a run that is over.
later-Ended :
    (u : List Effect) (v t : Turn)
    → ok (record v { effects = u ++ v.effects }) ≡ ok t
    → Ended v
    → Ended t
later-Ended u v t h e = record {
  over = ground (arith, e.over);
  before = u ++ e.before;
  closes =
      sym (ap (λ (x : Turn). x.effects) (ok_injective h))
      ∙ ap (λ (es : List Effect). u ++ es) e.closes
      ∙ sym (append_assoc u e.before (closings v.server))
      ∙ ap (λ (x : Turn). (u ++ e.before) ++ closings x.server) (ok_injective h);
}

pub loop_runs :
    (os : Os) (r : Round) (rs : List Round) (s : Server)
    → s.daemon.running ≡ true
    → server_loop os (r ∷ rs) s ≡ (round os r s >>= next_turn (server_loop os rs))
unfolding server_loop
loop_runs os r rs s up = if_true s.daemon.running _ _ up

pub loop_stopped :
    (os : Os) (rs : List Round) (s : Server)
    → s.daemon.running ≡ false
    → server_loop os rs s ≡ ended s []
unfolding server_loop
loop_stopped os [] s down = if_false s.daemon.running _ _ down
loop_stopped os (r ∷ rs) s down = if_false s.daemon.running _ _ down

goes_on_at_end :
    (os : Os) (s : Server) (t : Turn)
    → s.daemon.running ≡ true
    → server_loop os [] s ≡ ok t
    → t.goes_on ≡ true
unfolding server_loop
goes_on_at_end os s t up h = ground arith

pub next_goes_on :
    (rest : Server → Outcome Turn) (u : Turn)
    → u.goes_on ≡ true
    → next_turn rest u ≡ (rest u.server >>= λ v. ok (record v { effects = u.effects ++ v.effects }))
unfolding next_turn
next_goes_on rest u more = if_true u.goes_on _ _ more

pub next_ended :
    (rest : Server → Outcome Turn) (u : Turn)
    → u.goes_on ≡ false
    → next_turn rest u ≡ ended u.server u.effects
unfolding next_turn
next_ended rest u over = if_false u.goes_on _ _ over

-- A run of the loop that is over has closed, at its end, every channel that it still had and the
-- listening socket.
pub server_loop-Ended :
    (os : Os) (rs : List Round) (s : Server) (t : Turn)
    → server_loop os rs s ≡ ok t
    → t.goes_on ≡ false
    → Ended t
server_loop-Ended os [] s t h over = elim (Bool-cases s.daemon.running) [
  | inl up ↦ absurd (cc (goes_on_at_end os s t up h))
  | inr down ↦ ended-Ended s [] t (sym (loop_stopped os [] s down) ∙ h)
]
server_loop-Ended os (r ∷ rs) s t h over = elim (Bool-cases s.daemon.running) [
  | inl up ↦
      let (u, e, e') =
        ok->>= (round os r s) (next_turn (server_loop os rs)) (sym (loop_runs os r rs s up) ∙ h) in
      elim (Bool-cases u.goes_on) [
        | inl more ↦
            let (v, ev, last) =
              ok->>= (server_loop os rs u.server)
                (λ (w : Turn). ok (record w { effects = u.effects ++ w.effects }))
                (sym (next_goes_on (server_loop os rs) u more) ∙ e') in
            later-Ended u.effects v t last (
              server_loop-Ended os rs u.server v ev
                (ap (λ (x : Turn). x.goes_on) (ok_injective last) ∙ over))
        | inr done ↦
            ended-Ended u.server u.effects t (sym (next_ended (server_loop os rs) u done) ∙ e')
      ]
  | inr down ↦ ended-Ended s [] t (sym (loop_stopped os (r ∷ rs) s down) ∙ h)
]

round_selects :
    (os : Os) (r : Round) (s : Server) (u : Turn)
    → is_negative r.activity ≡ false
    → is_positive r.activity ≡ true
    → round os r s ≡ ok u
    → after_select os r s ≡ ok u
unfolding round
round_selects os r s u neg pos h = ground arith

closings-closes :
    (x : ℤ) (s : Server)
    → closes x (closings s) ≡ times x s.channel_fds + times x (s.server_fd ∷ [])
closings-closes x s = omega (
  arith,
  closes-append x (map closed s.channel_fds) (closed s.server_fd ∷ []),
  closes-map x s.channel_fds,
)

-- What a round closes and the end after it, together.
closes_all :
    (os : Os) (r : Round) (s : Server) (u : Turn) (x : ℤ)
    → after_select os r s ≡ ok u
    → closes x (u.effects ++ closings u.server)
      ≡ times x (s.channel_fds ++ (given r.accepted ++ s.server_fd ∷ []))
closes_all os r s u x e =
    let (same, counted) = after_select-closes x os r s u e in
    let last : times x (u.server.server_fd ∷ []) ≡ times x (s.server_fd ∷ []) =
      ap (λ (fd : ℤ). times x (fd ∷ [])) same in
    omega (
      arith,
      counted,
      last,
      closes-append x u.effects (closings u.server),
      closings-closes x u.server,
      times-append x s.channel_fds (given r.accepted ++ s.server_fd ∷ []),
      times-append x (given r.accepted) (s.server_fd ∷ []),
    )

closed_then :
    (u v : Turn) (effects : List Effect)
    → ended u.server [] ≡ ok v
    → effects ≡ u.effects ++ v.effects
    → effects ≡ u.effects ++ closings u.server
unfolding close_all
closed_then u v effects e same =
    same ∙ ap (λ (w : Turn). u.effects ++ w.effects) (sym (ok_injective e))

-- An EXIT on any channel ends the server: if the round returns, the loop ends after it, whatever rounds
-- were to follow, with the daemon stopped, and its last effects are one close of each channel that is
-- still open, in their order, and one of the listening socket. From the beginning of the round to the end
-- each descriptor is closed exactly as often as it was held: as one of the channels, as what `accept` gave
-- in the round, or as the listening socket.
pub exit-Ended :
    (os : Os) (r : Round) (rs : List Round) (before after : List ℤ) (fd : ℤ) (s : Server) (t : Turn)
    → s.daemon.running ≡ true
    → is_negative r.activity ≡ false
    → is_positive r.activity ≡ true
    → s.channel_fds ≡ before ++ fd ∷ after
    → SendsExit os r fd
    → server_loop os (r ∷ rs) s ≡ ok t
    → Ended t
      × (t.server.daemon.running ≡ false)
      × ((x : ℤ)
          → closes x t.effects ≡ times x (s.channel_fds ++ (given r.accepted ++ s.server_fd ∷ [])))
exit-Ended os r rs before after fd s t up neg pos at x h =
    let (u, e, e') =
      ok->>= (round os r s) (next_turn (server_loop os rs)) (sym (loop_runs os r rs s up) ∙ h) in
    let scanned = round_selects os r s u neg pos e in
    let (more, down) = after_select-exit os r before after fd s u x at scanned in
    let last =
      sym (
        next_goes_on (server_loop os rs) u more
        ∙ ap (λ (o : Outcome Turn). o >>= λ v. ok (record v { effects = u.effects ++ v.effects }))
            (loop_stopped os rs u.server down))
      ∙ e' in
    (
      later-Ended u.effects _ t last (ended-Ended u.server [] _ refl),
      sym (ap (λ (y : Turn). y.server.daemon.running) (ok_injective last)) ∙ down,
      λ y.
          ap (closes y) (
            closed_then u _ t.effects refl (sym (ap (λ (w : Turn). w.effects) (ok_injective last))))
          ∙ closes_all os r s u y scanned,
    )
