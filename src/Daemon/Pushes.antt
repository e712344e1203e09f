-- ===== src/Daemon/Pushes.antt =====
-- What PUSH mode of cpp/src/nsb_daemon.cc sends for a SEND or a POST, and to whom.
use nsb_ci.Prelude.{
  ℤ, negsuc, int_eq, int_eq_iff, Bytes, false, List, [], ◌∷◌, ◌++◌, some, ◌≡◌, refl, sym, ap, ◌∙◌,
  ◌⊎◌, ◌↔◌, inl, inr, arith, Option-cases, Bool-cases, subst, append-nil, if_false,
}
use nsb_ci.Message.{Nsbm, Operation, SystemMode, SimulatorMode, get_manifest, get_metadata}
use nsb_ci.Store.Lookup.{find, first}
use nsb_ci.Daemon.{Daemon, Os, Effect, sent, ok, ok->>=, ok_injective, Reply, forward_to}
use nsb_ci.Daemon.Messages.{handle_send, handle_post}
use nsb_ci.Daemon.Dispatch.{dispatch_on, respond, handle_message, response_template}
use nsb_ci.Daemon.Forwarding.{Delivers, as_forward, PushesTo, PushesTo-unique, forward_to-cases}

mode_is :
    (mode : SimulatorMode)
    → (mode ≡ SimulatorMode.system_wide)
      ⊎ ((mode ≡ SimulatorMode.per_node) ⊎ ((n : ℤ) × (mode ≡ SimulatorMode.other n)))
mode_is SimulatorMode.system_wide = inl refl
mode_is SimulatorMode.per_node = inr (inl refl)
mode_is (SimulatorMode.other n) = inr (inr (n, refl))

-- What PUSH mode makes of a message: nothing, or one forward to its target; no answer is wanted.
record Pushed (os : Os) (d : Daemon) (m : Nsbm) (d' : Daemon) (r : Reply) : Type 0 where
  kept : d' ≡ d
  silent : r.response_required ≡ false
  target :
      (((x : ℤ) → PushesTo d m x → ⊥) × (r.effects ≡ []))
      ⊎ ((x : ℤ) × PushesTo d m x × (r.effects ≡ forward_to os x (as_forward m)))

module _ (os : Os) (d d' : Daemon) (m out : Nsbm) (r : Reply) where
  send_target :
      d.cfg.system_mode ≡ SystemMode.push
      → (get_manifest m).op ≡ Operation.send
      → handle_send os d m out ≡ ok (d', r)
      → (((x : ℤ) → PushesTo d m x → ⊥) × (r.effects ≡ []))
        ⊎ ((x : ℤ) × PushesTo d m x × (r.effects ≡ forward_to os x (as_forward m)))
  unfolding handle_send
  send_target push is_send h = elim (mode_is d.cfg.simulator_mode) [
    | inl wide ↦ elim (Option-cases (first d.sim_client_lookup)) [
      | inl e ↦ absurd (ground arith)
      | inr (c, e) ↦ inr (c.ch_recv_fd, inl (is_send, (c, inl (wide, e), refl)), ground arith)
    ]
    | inr (inl node) ↦ elim (Option-cases (find (get_metadata m).src_id d.sim_client_lookup)) [
      | inl e ↦ absurd (ground arith)
      | inr (c, e) ↦ inr (c.ch_recv_fd, inl (is_send, (c, inr (node, e), refl)), ground arith)
    ]
    | inr (inr (n, e)) ↦ inl (λ x p. ground arith, ground arith)
  ]

  post_target :
      d.cfg.system_mode ≡ SystemMode.push
      → (get_manifest m).op ≡ Operation.post
      → handle_post os d m out ≡ ok (d', r)
      → (((x : ℤ) → PushesTo d m x → ⊥) × (r.effects ≡ []))
        ⊎ ((x : ℤ) × PushesTo d m x × (r.effects ≡ forward_to os x (as_forward m)))
  unfolding handle_post
  post_target push is_post h =
      elim (Option-cases (find (get_metadata m).dest_id d.app_client_lookup)) [
        | inl e ↦ inl (λ x p. ground arith, ground arith)
        | inr (c, e) ↦ elim (Bool-cases (int_eq c.ch_recv_fd (negsuc 0))) [
          | inl same ↦ inl (λ x p. ground (arith, int_eq_iff c.ch_recv_fd (negsuc 0)), ground arith)
          | inr apart ↦ inr (
            c.ch_recv_fd,
            inr (is_post, (c, e, refl, λ q. ground (arith, int_eq_iff c.ch_recv_fd (negsuc 0)))),
            ground arith,
          )
        ]
      ]

  send-Pushed :
      d.cfg.system_mode ≡ SystemMode.push
      → (get_manifest m).op ≡ Operation.send
      → handle_send os d m out ≡ ok (d', r)
      → Pushed os d m d' r
  unfolding handle_send
  send-Pushed push is_send h = record {
    kept = ground arith;
    silent = ground arith;
    target = send_target push is_send h;
  }

  post-Pushed :
      d.cfg.system_mode ≡ SystemMode.push
      → (get_manifest m).op ≡ Operation.post
      → handle_post os d m out ≡ ok (d', r)
      → Pushed os d m d' r
  unfolding handle_post
  post-Pushed push is_post h = record {
    kept = ground arith;
    silent = ground arith;
    target = post_target push is_post h;
  }

one_sent : {x y : ℤ} {v w : Bytes} → sent x v ∷ [] ≡ sent y w ∷ [] → (x ≡ y) × (v ≡ w)
one_sent e = (cc, cc)

quiet_respond :
    (os : Os) (fd : ℤ) (d d' : Daemon) (r : Reply) (effects : List Effect)
    → r.response_required ≡ false
    → respond os fd (d, r) ≡ ok (d', effects)
    → r.effects ≡ effects
unfolding respond
quiet_respond os fd d d' r effects silent e =
    sym (append-nil r.effects)
    ∙ ap (λ (l : List Effect). r.effects ++ l) (sym (if_false r.response_required _ _ silent))
    ∙ ap (λ (p : Daemon × List Effect). p.1) (ok_injective e)

-- The effects of a message that is pushed.
Pushed-iff :
    (os : Os) (d : Daemon) (m : Nsbm) (d' : Daemon) (r : Reply) (x : ℤ) (w : Bytes)
    → Pushed os d m d' r
    → (r.effects ≡ sent x w ∷ []) ↔ (PushesTo d m x × Delivers os x (as_forward m) w)
Pushed-iff os d m d' r x w p = elim p.target [
  | inl (nobody, nothing) ↦ (λ e. cc, λ h. absurd (nobody x h.0))
  | inr (y, there, e) ↦ elim (forward_to-cases os y (as_forward m)) [
    | inl (nothing, refused) ↦ (
      λ e'. cc,
      λ h.
          let same = PushesTo-unique d m x y h.0 there in
          absurd (refused w (subst (λ z. Delivers os z (as_forward m) w) same h.1)),
    )
    | inr (v, e', del) ↦ (
      λ e''.
          let (same, text) = one_sent (sym (e ∙ e') ∙ e'') in
          (
            subst (PushesTo d m) same there,
            subst (λ z. Delivers os z (as_forward m) w) same
                (subst (Delivers os y (as_forward m)) text del),
          ),
      λ h.
          let same = PushesTo-unique d m x y h.0 there in
          let text : w ≡ v = cc (h.1.serialized, del.serialized) in
          e
          ∙ e'
          ∙ ap (λ (z : ℤ). sent z v ∷ []) (sym same)
          ∙ ap (λ (u : Bytes). sent x u ∷ []) (sym text),
    )
  ]
]

-- At most one effect.
Pushed-few :
    (os : Os) (d : Daemon) (m : Nsbm) (d' : Daemon) (r : Reply)
    → Pushed os d m d' r
    → (r.effects ≡ []) ⊎ ((x : ℤ) × (w : Bytes) × (r.effects ≡ sent x w ∷ []))
Pushed-few os d m d' r p = elim p.target [
  | inl (nobody, nothing) ↦ inl nothing
  | inr (y, there, e) ↦ elim (forward_to-cases os y (as_forward m)) [
    | inl (nothing, refused) ↦ inl (e ∙ nothing)
    | inr (v, e', del) ↦ inr (y, v, e ∙ e')
  ]
]

dispatch_on-Pushed :
    (os : Os) (d d' : Daemon) (m out : Nsbm) (r : Reply)
    → d.cfg.system_mode ≡ SystemMode.push
    → ((get_manifest m).op ≡ Operation.send) ⊎ ((get_manifest m).op ≡ Operation.post)
    → dispatch_on (get_manifest m).op os d m out ≡ ok (d', r)
    → Pushed os d m d' r
unfolding dispatch_on
dispatch_on-Pushed os d d' m out r push (inl e) h =
    send-Pushed os d d' m out r push e (subst (λ op. dispatch_on op os d m out ≡ ok (d', r)) e h)
dispatch_on-Pushed os d d' m out r push (inr e) h =
    post-Pushed os d d' m out r push e (subst (λ op. dispatch_on op os d m out ≡ ok (d', r)) e h)

-- In PUSH mode a SEND or a POST that `handle_message` returns from leaves the daemon as it was, and at
-- most one thing is sent. A text is sent to a descriptor exactly where that is the RECV channel of the
-- simulator client of the source of the SEND (of the only one, system-wide), or that of the application
-- client that the POST is for and not -1, `select` reports it, there is memory, and the text is the
-- message as it came but with the operation FORWARD, serialised.
pub handle_message-pushes_iff :
    (os : Os) (fd : ℤ) (d d' : Daemon) (wire : Bytes) (m : Nsbm) (effects : List Effect)
    → os.parse wire ≡ some m
    → d.cfg.system_mode ≡ SystemMode.push
    → ((get_manifest m).op ≡ Operation.send) ⊎ ((get_manifest m).op ≡ Operation.post)
    → handle_message os fd d wire ≡ ok (d', effects)
    → (d' ≡ d)
      × ((effects ≡ []) ⊎ ((x : ℤ) × (w : Bytes) × (effects ≡ sent x w ∷ [])))
      × ((x : ℤ) (w : Bytes)
          → (effects ≡ sent x w ∷ []) ↔ (PushesTo d m x × Delivers os x (as_forward m) w))
unfolding handle_message respond
handle_message-pushes_iff os fd d d' wire m effects parsed push which h =
    let ((d'', r), e, e') =
      ok->>= (dispatch_on (get_manifest m).op os d m response_template) (respond os fd)
        (ground (arith, parsed, h)) in
    let p = dispatch_on-Pushed os d d'' m response_template r push which e in
    let same : d'' ≡ d' = ground (arith, e') in
    let all : r.effects ≡ effects = quiet_respond os fd d'' d' r effects p.silent e' in
    (
      sym same ∙ p.kept,
      subst (λ (l : List Effect). (l ≡ []) ⊎ ((x : ℤ) × (w : Bytes) × (l ≡ sent x w ∷ []))) all
          (Pushed-few os d m d'' r p),
      λ x w.
          subst
            (λ (l : List Effect).
              (l ≡ sent x w ∷ []) ↔ (PushesTo d m x × Delivers os x (as_forward m) w))
            all (Pushed-iff os d m d'' r x w p),
    )
