-- ===== src/Socket/Closing.antt =====
-- `closeConnection` after `connectToServer`, of cpp/src/nsb.cc.
use nsb_ci.Prelude.{
  subst, ℤ, pos, int_eq_iff, true, Bool-cases, inl, inr, List, [], ◌∷◌, ◌++◌, ◌≡◌, refl, sym, ◌∙◌,
  ap, arith, if_true,
}
use nsb_ci.Daemon.{ok, ok->>=}
use nsb_ci.Client.{Channel}
use nsb_ci.Socket.Connect.{
  Call, closed, shut_down, Try, Conns, Found, connected, gave_up, ran_out, try_channel, with_found,
  connect_channels, connect_to_server, set_non_blocking, close_connection, channels,
}
use nsb_ci.Socket.Descriptors.{after, after-append, connect_to_server-after, onto, parts, three}

abbrev found_at : (Channel → Try) → Channel → Found
found_at tries ch = (try_channel (tries ch).attempts).0

abbrev all_found : Found → Found → Found → Conns
all_found f g h =
    with_found Channel.recv h (with_found Channel.send g (with_found Channel.ctrl f []))

-- The second loop goes through where every channel is connected.
all_connected :
    (get set : ℤ → ℤ) (f g h : Found)
    → set_non_blocking get set (all_found f g h) channels ≡ ok true
    → (a : ℤ) × (b : ℤ) × (c : ℤ) × (all_found f g h ≡ three a b c)
unfolding set_non_blocking
all_connected get set (connected a) (connected b) (connected c) e = (a, b, c, refl)
all_connected get set (connected a) (connected b) gave_up e = absurd (ground arith)
all_connected get set (connected a) (connected b) ran_out e = absurd (ground arith)
all_connected get set (connected a) gave_up h e = absurd (ground arith)
all_connected get set (connected a) ran_out h e = absurd (ground arith)
all_connected get set gave_up g h e = absurd (ground arith)
all_connected get set ran_out g h e = absurd (ground arith)

through_conns :
    (tries : Channel → Try)
    → (connect_channels tries channels []).through ≡ true
    → (connect_channels tries channels []).conns
      ≡ all_found
          (found_at tries Channel.ctrl)
          (found_at tries Channel.send)
          (found_at tries Channel.recv)
unfolding connect_channels
through_conns tries h = ground arith

abbrev pub closing : ℤ → ℤ → ℤ → List Call
closing a b c = shut_down a ∷ closed a ∷ shut_down b ∷ closed b ∷ shut_down c ∷ closed c ∷ []

close_three : (a b c : ℤ) → close_connection (three a b c) channels ≡ ok (closing a b c)
unfolding close_connection
close_three a b c = refl

pub closed_three : (a b c : ℤ) → after (closing a b c) (onto (three a b c) []) ≡ []
closed_three a b c = ground (
  arith,
  int_eq_iff a c,
  int_eq_iff a b,
  int_eq_iff b c,
  int_eq_iff b a,
  int_eq_iff c a,
  int_eq_iff c b,
  int_eq_iff a a,
  int_eq_iff b b,
  int_eq_iff c c,
)

conns_three :
    (get set : ℤ → ℤ) (f g h : Found) (k : Conns)
    → k ≡ all_found f g h
    → set_non_blocking get set k channels ≡ ok true
    → (a : ℤ) × (b : ℤ) × (c : ℤ) × (k ≡ three a b c)
conns_three get set f g h k e went =
    let (a, b, c, e') =
      all_connected get set f g h
        (subst (λ (k : Conns). set_non_blocking get set k channels ≡ ok true) e went) in
    (a, b, c, e ∙ e')

-- A result of 0 has been through both loops.
zero_through :
    (tries : Channel → Try) (get set : ℤ → ℤ) (conns : Conns) (calls : List Call)
    → connect_to_server tries get set ≡ ok (pos 0, conns, calls)
    → ((connect_channels tries channels []).through ≡ true)
      × (set_non_blocking get set (connect_channels tries channels []).conns channels ≡ ok true)
unfolding connect_to_server
zero_through tries get set conns calls h =
    elim (Bool-cases (connect_channels tries channels []).through) [
      | inr short ↦ absurd (ground arith)
      | inl through ↦
          let (fine, e, e') =
            ok->>= (set_non_blocking get set (connect_channels tries channels []).conns channels) _
              (sym (if_true _ _ _ through) ∙ h) in
          let went : fine ≡ true = ground arith in (through, e ∙ ap ok went)
    ]

connected_three :
    (tries : Channel → Try) (get set : ℤ → ℤ) (conns : Conns) (calls : List Call)
    → connect_to_server tries get set ≡ ok (pos 0, conns, calls)
    → (a : ℤ) × (b : ℤ) × (c : ℤ) × (conns ≡ three a b c)
connected_three tries get set conns calls h =
    let (through, went) = zero_through tries get set conns calls h in
    let (same, _) = parts tries get set (pos 0) conns calls h in
    conns_three get set (found_at tries Channel.ctrl) (found_at tries Channel.send)
      (found_at tries Channel.recv) conns (same ∙ through_conns tries through)
      (subst (λ (k : Conns). set_non_blocking get set k channels ≡ ok true) (sym same) went)

-- Where `connectToServer` returns 0, `closeConnection` finds all three channels, and when it returns
-- every descriptor that either of them has opened is closed.
pub close_connection-after :
    (tries : Channel → Try) (get set : ℤ → ℤ) (conns : Conns) (calls : List Call)
    → connect_to_server tries get set ≡ ok (pos 0, conns, calls)
    → (closes : List Call) × (close_connection conns channels ≡ ok closes)
      × (after (calls ++ closes) [] ≡ [])
close_connection-after tries get set conns calls h =
    let (a, b, c, e) = connected_three tries get set conns calls h in
    (
      closing a b c,
      ap (λ k. close_connection k channels) e ∙ close_three a b c,
      after-append calls (closing a b c) []
          ∙ ap (after (closing a b c))
              (connect_to_server-after tries get set (pos 0) conns calls h ∙ ap (λ k. onto k []) e)
          ∙ closed_three a b c,
    )
