-- ===== src/Daemon/Program.antt =====
-- The program of the daemon: `start`, `start_server` from its socket on, and `main` of cpp/src/nsb_daemon.cc.
use nsb_ci.Prelude.{
  ℤ, pos, negsuc, int_eq, Bytes, Bool, true, false, List, [], ◌∷◌, ◌++◌, Option, none, some, ◌≡◌,
  refl, sym, ap, ◌∙◌, arith, if◌then◌else◌, Bool-cases, if_true, if_false, inl, inr, ◌⊎◌, subst,
  append_assoc, map,
}
use nsb_ci.Daemon.{Daemon, Os, Effect, closed, Outcome, ok, ◌>>=◌, ok->>=, ok_injective}
use nsb_ci.Daemon.Dispatch.{stop}
use nsb_ci.Message.{new_config}
use nsb_ci.Daemon.Startup.{configure, ConfigFile, Setup, open_server, new_daemon}
use nsb_ci.Daemon.Server.{
  Round, Server, Turn, accept_channel, after_select, round, next_turn, server_loop,
}
use nsb_ci.Daemon.Ending.{
  closings, server_loop-Ended, loop_runs, loop_stopped, next_goes_on, next_ended,
}

-- A server that has not begun, or has not opened its socket.
abbrev idle : ℤ → Daemon → List Effect → Turn
idle fd d effects = record {
  server = record { daemon = d; server_fd = fd; channel_fds = [] };
  goes_on = false;
  effects = effects;
}

abbrev serve_on : Os → Setup → List Round → Daemon → Option ℤ × List Effect → Outcome Turn
serve_on os setup rs d (none, effects) = ok (idle setup.socket d effects)
serve_on os setup rs d (some fd, effects) =
    server_loop os rs (record { daemon = d; server_fd = fd; channel_fds = [] })

-- `start_server`: where the socket cannot be opened it returns.
unfoldable pub start_server : Os → Setup → List Round → Daemon → Outcome Turn
start_server os setup rs d = serve_on os setup rs d (open_server setup)

-- `start`
unfoldable pub start : Os → Setup → List Round → Daemon → Outcome Turn
start os setup rs d =
    if d.running
    then ok (idle setup.socket d [])
    else start_server os setup rs (record d { running = true })

-- `main` has returned 1 before there was a daemon, is still in the server loop, or has returned 0.
pub data Main : Type 0 where
  refused : Main
  serving : Turn → Main
  returned : Turn → Main

-- The end of `main`.
unfoldable pub finish : Turn → Main
unfolding stop
finish t =
    if t.goes_on
    then serving t
    else returned (record t { server = record t.server { daemon = stop t.server.daemon } })

-- The arguments behind the program's name, whether a file exists, and what it holds.
unfoldable pub main :
    Os
    → List Bytes
    → (Bytes → Bool)
    → (Bytes → Option ConfigFile)
    → Setup
    → List Round
    → Outcome Main
main os (file ∷ []) exists load setup rs =
    if exists file
    then (do d ← new_daemon (pos 65432) (load file); t ← start os setup rs d; ok (finish t))
    else ok refused
main os _ exists load setup rs = ok refused

round_fd :
    (os : Os) (r : Round) (s : Server) (u : Turn)
    → round os r s ≡ ok u
    → u.server.server_fd ≡ s.server_fd
unfolding round after_select accept_channel
round_fd os r s u h = ground arith

loop_fd :
    (os : Os) (rs : List Round) (s : Server) (t : Turn)
    → server_loop os rs s ≡ ok t
    → t.server.server_fd ≡ s.server_fd
loop_fd os [] s t h = elim (Bool-cases s.daemon.running) [
  | inl up ↦ unfold server_loop in ground arith
  | inr down ↦
      ap (λ (x : Turn). x.server.server_fd)
        (sym (ok_injective (sym (loop_stopped os [] s down) ∙ h)))
]
loop_fd os (r ∷ rs) s t h = elim (Bool-cases s.daemon.running) [
  | inl up ↦
      let (u, e, e') =
        ok->>= (round os r s) (next_turn (server_loop os rs)) (sym (loop_runs os r rs s up) ∙ h) in
      elim (Bool-cases u.goes_on) [
        | inl more ↦
            let (v, ev, last) =
              ok->>= (server_loop os rs u.server)
                (λ (w : Turn). ok (record w { effects = u.effects ++ w.effects }))
                (sym (next_goes_on (server_loop os rs) u more) ∙ e') in
            ap (λ (x : Turn). x.server.server_fd) (sym (ok_injective last))
            ∙ loop_fd os rs u.server v ev
            ∙ round_fd os r s u e
        | inr done ↦
            ap (λ (x : Turn). x.server.server_fd)
              (sym (ok_injective (sym (next_ended (server_loop os rs) u done) ∙ e')))
            ∙ round_fd os r s u e
      ]
  | inr down ↦
      ap (λ (x : Turn). x.server.server_fd)
        (sym (ok_injective (sym (loop_stopped os (r ∷ rs) s down) ∙ h)))
]

-- The last thing that a list of effects does is to close a descriptor.
abbrev pub ClosesLast : ℤ → List Effect → Type 0
ClosesLast fd effects = (before : List Effect) × (effects ≡ before ++ closed fd ∷ [])

closings-ClosesLast : (s : Server) → ClosesLast s.server_fd (closings s)
closings-ClosesLast s = (map closed s.channel_fds, refl)

after-ClosesLast :
    (fd : ℤ) (before effects : List Effect)
    → ClosesLast fd effects
    → ClosesLast fd (before ++ effects)
after-ClosesLast fd before effects (b, e) = (
  before ++ b,
  ap (λ (l : List Effect). before ++ l) e ∙ sym (append_assoc before b (closed fd ∷ [])),
)

loop-ClosesLast :
    (os : Os) (rs : List Round) (s : Server) (t : Turn)
    → server_loop os rs s ≡ ok t
    → t.goes_on ≡ false
    → ClosesLast s.server_fd t.effects
loop-ClosesLast os rs s t h over =
    let e = server_loop-Ended os rs s t h over in
    subst (λ (fd : ℤ). ClosesLast fd t.effects) (loop_fd os rs s t h)
      (subst (ClosesLast t.server.server_fd) (sym e.closes) (
        after-ClosesLast t.server.server_fd e.before (closings t.server)
          (closings-ClosesLast t.server)))

open_cases :
    (s : Setup)
    → int_eq s.socket (negsuc 0) ≡ false
    → (open_server s ≡ (none, closed s.socket ∷ [])) ⊎ (open_server s ≡ (some s.socket, []))
unfolding open_server
open_cases s there = ground arith

new_daemon-running :
    (port : ℤ) (file : Option ConfigFile) (d : Daemon)
    → new_daemon port file ≡ ok d
    → d.running ≡ false
unfolding new_daemon
new_daemon-running port file d h =
    let (cfg, e, e') = ok->>= (configure file new_config) _ h in
    ap (λ (x : Daemon). x.running) (sym (ok_injective e'))

closes_only : (fd : ℤ) → ClosesLast fd (closed fd ∷ [])
closes_only fd = ([], refl)

start_server-ClosesLast :
    (os : Os) (setup : Setup) (rs : List Round) (d : Daemon) (t : Turn)
    → int_eq setup.socket (negsuc 0) ≡ false
    → start_server os setup rs d ≡ ok t
    → t.goes_on ≡ false
    → ClosesLast setup.socket t.effects
unfolding start_server
start_server-ClosesLast os setup rs d t there h over = elim (open_cases setup there) [
  | inl e ↦
      subst (λ (x : Turn). ClosesLast setup.socket x.effects)
        (ok_injective (sym (ap (serve_on os setup rs d) e) ∙ h)) (closes_only setup.socket)
  | inr e ↦
      loop-ClosesLast os rs (record { daemon = d; server_fd = setup.socket; channel_fds = [] }) t
        (sym (ap (serve_on os setup rs d) e) ∙ h) over
]

start-ClosesLast :
    (os : Os) (setup : Setup) (rs : List Round) (d : Daemon) (t : Turn)
    → d.running ≡ false
    → int_eq setup.socket (negsuc 0) ≡ false
    → start os setup rs d ≡ ok t
    → t.goes_on ≡ false
    → ClosesLast setup.socket t.effects
unfolding start
start-ClosesLast os setup rs d t down there h over =
    start_server-ClosesLast os setup rs (record d { running = true }) t there
      (sym (if_false d.running _ _ down) ∙ h) over

stop-running : (d : Daemon) → (stop d).running ≡ false
unfolding stop
stop-running d = ground arith

turn_of : Turn → Main → Turn
turn_of t (returned u) = u
turn_of t _ = t

finish-ClosesLast :
    (fd : ℤ) (t u : Turn)
    → (t.goes_on ≡ false → ClosesLast fd t.effects)
    → finish t ≡ returned u
    → (u.server.daemon.running ≡ false) × ClosesLast fd u.effects
unfolding finish turn_of
finish-ClosesLast fd t u closes h = elim (Bool-cases t.goes_on) [
  | inl more ↦ absurd (cc (sym (if_true t.goes_on _ _ more) ∙ h))
  | inr over ↦
      let same = ap (turn_of t) (sym (if_false t.goes_on _ _ over) ∙ h) in
      (
        ap (λ (x : Turn). x.server.daemon.running) (sym same) ∙ stop-running t.server.daemon,
        subst (λ (x : Turn). ClosesLast fd x.effects) same (closes over),
      )
]

-- Whatever the configuration is and whatever the server meets: where the program returns 0, its daemon does not
-- run, and the last thing that it has done is to close the listening socket, if it had got one, also where that
-- could not be bound or listened on.
pub main-ClosesLast :
    (os : Os) (args : List Bytes) (exists : Bytes → Bool) (load : Bytes → Option ConfigFile)
    (setup : Setup) (rs : List Round) (t : Turn)
    → int_eq setup.socket (negsuc 0) ≡ false
    → main os args exists load setup rs ≡ ok (returned t)
    → (t.server.daemon.running ≡ false) × ClosesLast setup.socket t.effects
unfolding main
main-ClosesLast os [] exists load setup rs t there h = cc
main-ClosesLast os (file ∷ x ∷ xs) exists load setup rs t there h = cc
main-ClosesLast os (file ∷ []) exists load setup rs t there h = elim (Bool-cases (exists file)) [
  | inl is ↦
      let (d, e, h') =
        ok->>= (new_daemon (pos 65432) (load file)) _ (sym (if_true (exists file) _ _ is) ∙ h) in
      let (u, e', last) = ok->>= (start os setup rs d) _ h' in
      finish-ClosesLast setup.socket u t
        (start-ClosesLast os setup rs d u (new_daemon-running (pos 65432) (load file) d e) there e')
        (ok_injective last)
  | inr missing ↦ cc (sym (if_false (exists file) _ _ missing) ∙ h)
]
