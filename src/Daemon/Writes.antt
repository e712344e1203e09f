-- ===== src/Daemon/Writes.antt =====
-- To whom `NSBDaemon::handle_message` of cpp/src/nsb_daemon.cc writes.
use nsb_ci.Prelude.{
  ℤ, Bytes, List, [], ◌∷◌, some, ◌≡◌, refl, ◌⊎◌, inl, inr, sym, ◌∙◌, arith, Option-cases,
  Bool-cases,
}
use nsb_ci.Message.{Nsbm, Operation, SystemMode, get_manifest}
use nsb_ci.Daemon.{Daemon, Os, Effect, sent, Outcome, ok, thrown, undefined, ◌>>=◌, Reply, transmit}
use nsb_ci.Daemon.Init.{handle_init, handle_ping}
use nsb_ci.Daemon.Messages.{handle_send, handle_fetch, handle_post, handle_receive}
use nsb_ci.Daemon.Dispatch.{dispatch_on, respond, handle_message, response_template}

-- Nothing is written, or one message to `fd`.
abbrev pub OneAnswer : ℤ → List Effect → Type 0
OneAnswer fd effects = (effects ≡ []) ⊎ ((answer : Bytes) × (effects ≡ sent fd answer ∷ []))

transmit-OneAnswer : (os : Os) (fd : ℤ) (m : Nsbm) → OneAnswer fd (transmit os fd m)
unfolding transmit
transmit-OneAnswer os fd m = elim (Option-cases (os.serialize m)) [
  | inl failed ↦ inl (ground arith)
  | inr (wire, e) ↦ elim (Bool-cases (os.malloc (os.byte_size_long m))) [
    | inl memory ↦ inr (wire, ground arith)
    | inr exhausted ↦ inl (ground arith)
  ]
]

init-quiet : (d : Daemon) (m out : Nsbm) → (handle_init d m out).1.effects ≡ []
unfolding handle_init
init-quiet d m out = ground arith

-- In PULL mode no handler sends anything of its own.
quiet :
    (os : Os) (op : Operation) (d d' : Daemon) (m out : Nsbm) (r : Reply)
    → d.cfg.system_mode ≡ SystemMode.pull
    → dispatch_on op os d m out ≡ ok (d', r)
    → r.effects ≡ []
unfolding dispatch_on handle_ping handle_send handle_fetch handle_post handle_receive
quiet os Operation.init d d' m out r pull h = cc (init-quiet d m out)
quiet os _ d d' m out r pull h = ground arith

respond-OneAnswer :
    (os : Os) (fd : ℤ) (o : Outcome (Daemon × Reply)) (d' : Daemon) (effects : List Effect)
    → ((d'' : Daemon) (r : Reply) → o ≡ ok (d'', r) → r.effects ≡ [])
    → (o >>= respond os fd) ≡ ok (d', effects)
    → OneAnswer fd effects
unfolding respond
respond-OneAnswer os fd (ok (d, r)) d' effects q h = elim (Bool-cases r.response_required) [
  | inl wanted ↦ elim (transmit-OneAnswer os fd r.outgoing) [
    | inl e ↦ inl (ground (arith, q d r refl))
    | inr (wire, e) ↦ inr (wire, ground (arith, q d r refl))
  ]
  | inr unwanted ↦ inl (ground (arith, q d r refl))
]
respond-OneAnswer os fd thrown d' effects q h = cc
respond-OneAnswer os fd undefined d' effects q h = cc

-- In PULL mode `handle_message` sends at most one message, and sends it to the descriptor that it
-- read from.
pub handle_message-OneAnswer :
    (os : Os) (fd : ℤ) (d d' : Daemon) (wire : Bytes) (effects : List Effect)
    → d.cfg.system_mode ≡ SystemMode.pull
    → handle_message os fd d wire ≡ ok (d', effects)
    → OneAnswer fd effects
unfolding handle_message
handle_message-OneAnswer os fd d d' wire effects pull h = elim (Option-cases (os.parse wire)) [
  | inl broken ↦ inl (ground arith)
  | inr (m, e) ↦
      respond-OneAnswer os fd (dispatch_on (get_manifest m).op os d m response_template) d' effects
        (λ d'' r. quiet os (get_manifest m).op d d'' m response_template r pull)
        (sym (at_message m e) ∙ h)
]
  where
    at_message :
        (m : Nsbm)
        → os.parse wire ≡ some m
        → handle_message os fd d wire
          ≡ (dispatch_on (get_manifest m).op os d m response_template >>= respond os fd)
    at_message m e = rw (e, handle_message)
