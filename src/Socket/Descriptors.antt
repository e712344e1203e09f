-- ===== src/Socket/Descriptors.antt =====
-- Which descriptors `connectToServer` and `closeConnection` of cpp/src/nsb.cc leave open.
use nsb_ci.Prelude.{
  ℤ, int_eq, int_eq_iff, Bool-cases, inl, inr, List, [], ◌∷◌, ◌++◌, ◌≡◌, refl, sym, ◌∙◌, arith,
  if◌then◌else◌, if_true,
}
use nsb_ci.Daemon.{ok, ok->>=}
use nsb_ci.Client.{Channel}
use nsb_ci.Socket.Connect.{
  Call, opened, closed, shut_down, Attempt, Try, Conns, Found, connected, gave_up, ran_out,
  try_channel, with_found, connect_channels, connect_to_server, set_non_blocking, channels,
}

-- The descriptors that are open, the latest first.
abbrev pub remove : ℤ → List ℤ → List ℤ
remove fd [] = []
remove fd (x ∷ xs) = let rest = remove fd xs in if int_eq fd x then xs else x ∷ rest

abbrev pub after : List Call → List ℤ → List ℤ
after [] t = t
after (opened fd ∷ cs) t = after cs (fd ∷ t)
after (closed fd ∷ cs) t = after cs (remove fd t)
after (shut_down fd ∷ cs) t = after cs t

-- Those of the connections.
abbrev pub onto : Conns → List ℤ → List ℤ
onto [] t = t
onto ((ch, fd) ∷ conns) t = onto conns (fd ∷ t)

pub after-append : (cs ds : List Call) (t : List ℤ) → after (cs ++ ds) t ≡ after ds (after cs t)
after-append [] ds t = refl
after-append (opened fd ∷ cs) ds t = after-append cs ds (fd ∷ t)
after-append (closed fd ∷ cs) ds t = after-append cs ds (remove fd t)
after-append (shut_down fd ∷ cs) ds t = after-append cs ds t

pub onto-append :
    (conns : Conns) (ch : Channel) (fd : ℤ) (t : List ℤ)
    → onto (conns ++ (ch, fd) ∷ []) t ≡ fd ∷ onto conns t
onto-append [] ch fd t = refl
onto-append ((c, x) ∷ conns) ch fd t = onto-append conns ch fd (x ∷ t)

-- Opened and closed at once.
abbrev pub opened_by : Found → List ℤ → List ℤ
opened_by (connected fd) t = fd ∷ t
opened_by _ t = t

pub remove_head : (fd : ℤ) (t : List ℤ) → remove fd (fd ∷ t) ≡ t
remove_head fd t = ground (arith, int_eq_iff fd fd)

after-try_channel :
    (tries : List Attempt) (t : List ℤ)
    → after (try_channel tries).1 t ≡ opened_by (try_channel tries).0 t
unfolding try_channel
after-try_channel [] t = refl
after-try_channel (a ∷ rest) t = ground (arith, remove_head a.socket t, after-try_channel rest t)

onto-with_found :
    (ch : Channel) (f : Found) (conns : Conns) (t : List ℤ)
    → onto (with_found ch f conns) t ≡ opened_by f (onto conns t)
onto-with_found ch (connected fd) conns t = onto-append conns ch fd t
onto-with_found ch gave_up conns t = refl
onto-with_found ch ran_out conns t = refl

after-connect_channels :
    (tries : Channel → Try) (chs : List Channel) (conns : Conns) (t : List ℤ)
    → let c = connect_channels tries chs conns in after c.calls (onto conns t) ≡ onto c.conns t
unfolding connect_channels
after-connect_channels tries [] conns t = refl
after-connect_channels tries (ch ∷ chs) conns t =
    let (found, calls) = try_channel (tries ch).attempts in
    let first : after calls (onto conns t) ≡ onto (with_found ch found conns) t =
      after-try_channel (tries ch).attempts (onto conns t)
      ∙ sym (onto-with_found ch found conns t) in
    let c = connect_channels tries chs (with_found ch found conns) in
    ground (
      arith,
      first,
      after-append calls c.calls (onto conns t),
      after-connect_channels tries chs (with_found ch found conns) t,
    )

pub parts :
    (tries : Channel → Try) (get set : ℤ → ℤ) (n : ℤ) (conns : Conns) (calls : List Call)
    → connect_to_server tries get set ≡ ok (n, conns, calls)
    → (conns ≡ (connect_channels tries channels []).conns)
      × (calls ≡ (connect_channels tries channels []).calls)
unfolding connect_to_server
parts tries get set n conns calls h =
    elim (Bool-cases (connect_channels tries channels []).through) [
      | inl through ↦
          let (fine, e, e') =
            ok->>= (set_non_blocking get set (connect_channels tries channels []).conns channels) _
              (sym (if_true _ _ _ through) ∙ h) in
          (ground arith, ground arith)
      | inr short ↦ (ground arith, ground arith)
    ]

-- Whatever becomes of the attempts, when `connectToServer` returns the descriptors that it has opened
-- and not closed are those of `conns`, and no other.
pub connect_to_server-after :
    (tries : Channel → Try) (get set : ℤ → ℤ) (n : ℤ) (conns : Conns) (calls : List Call)
    → connect_to_server tries get set ≡ ok (n, conns, calls)
    → after calls [] ≡ onto conns []
unfolding connect_to_server
connect_to_server-after tries get set n conns calls h =
    ground (arith, parts tries get set n conns calls h, after-connect_channels tries channels [] [])

abbrev pub three : ℤ → ℤ → ℤ → Conns
three a b c = (Channel.ctrl, a) ∷ (Channel.send, b) ∷ (Channel.recv, c) ∷ []
