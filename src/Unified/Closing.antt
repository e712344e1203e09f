-- ===== src/Unified/Closing.antt =====
-- Which descriptors `SocketBackend` of cpp/rabbit/src/NSBUnified.cpp leaves open.
use nsb_ci.Prelude.{ℤ, false, List, [], ◌∷◌, ◌++◌, ◌≡◌, refl, sym, ap, ◌∙◌, arith, if_false}
use nsb_ci.Daemon.{ok, ok_injective}
use nsb_ci.Client.{Channel}
use nsb_ci.Socket.Connect.{Call, Attempt, Conns, Found, connected, gave_up, ran_out, channels}
use nsb_ci.Socket.Descriptors.{
  after, onto, after-append, onto-append, remove_head, opened_by, three,
}
use nsb_ci.Socket.Closing.{closing, closed_three}
use nsb_ci.Unified.Backends.{
  SocketBackend, try_socket, connect_sockets, new_socket_backend, close_calls, close_backend,
}

after-try_socket :
    (tries : List Attempt) (t : List ℤ)
    → after (try_socket tries).1 t ≡ opened_by (try_socket tries).0 t
unfolding try_socket
after-try_socket [] t = refl
after-try_socket (a ∷ rest) t = ground (arith, remove_head a.socket t, after-try_socket rest t)

-- One channel: where the loop goes through, it was connected.
Goes : (Channel → List Attempt) → Channel → List Channel → Conns → Conns → Type 0
Goes tries ch chs conns k =
    (fd : ℤ) × ((try_socket (tries ch)).0 ≡ connected fd)
    × ((connect_sockets tries chs (conns ++ (ch, fd) ∷ [])).0 ≡ ok k)
    × ((connect_sockets tries (ch ∷ chs) conns).1
        ≡ (try_socket (tries ch)).1 ++ (connect_sockets tries chs (conns ++ (ch, fd) ∷ [])).1)

connect_parts :
    (tries : Channel → List Attempt) (ch : Channel) (chs : List Channel) (conns k : Conns)
    → (connect_sockets tries (ch ∷ chs) conns).0 ≡ ok k
    → Goes tries ch chs conns k
unfolding connect_sockets Goes
connect_parts tries ch chs conns k h = go (try_socket (tries ch)).0 refl
  where
    go : (f : Found) → (try_socket (tries ch)).0 ≡ f → Goes tries ch chs conns k
    go (connected fd) e = (fd, e, ground arith, ground arith)
    go gave_up e = absurd (ground arith)
    go ran_out e = absurd (ground arith)

after-connect_sockets :
    (tries : Channel → List Attempt) (chs : List Channel) (conns k : Conns) (t : List ℤ)
    → (connect_sockets tries chs conns).0 ≡ ok k
    → after (connect_sockets tries chs conns).1 (onto conns t) ≡ onto k t
unfolding Goes
after-connect_sockets tries [] conns k t h = unfold connect_sockets in ground arith
after-connect_sockets tries (ch ∷ chs) conns k t h =
    let (fd, found, later, all) = connect_parts tries ch chs conns k h in
    let rest = connect_sockets tries chs (conns ++ (ch, fd) ∷ []) in
    ap (λ (cs : List Call). after cs (onto conns t)) all
    ∙ after-append (try_socket (tries ch)).1 rest.1 (onto conns t)
    ∙ ap (after rest.1) (
        after-try_socket (tries ch) (onto conns t)
        ∙ ap (λ (f : Found). opened_by f (onto conns t)) found
        ∙ sym (onto-append conns ch fd t))
    ∙ after-connect_sockets tries chs (conns ++ (ch, fd) ∷ []) k t later

connected_all :
    (tries : Channel → List Attempt) (k : Conns)
    → (connect_sockets tries channels []).0 ≡ ok k
    → (a : ℤ) × (b : ℤ) × (c : ℤ) × (k ≡ three a b c)
unfolding Goes
connected_all tries k h =
    let (a, _, h1, _) =
      connect_parts tries Channel.ctrl (Channel.send ∷ Channel.recv ∷ []) [] k h in
    let (b, _, h2, _) =
      connect_parts tries Channel.send (Channel.recv ∷ []) ((Channel.ctrl, a) ∷ []) k h1 in
    let (c, _, h3, _) =
      connect_parts tries Channel.recv [] ((Channel.ctrl, a) ∷ (Channel.send, b) ∷ []) k h2 in
    (a, b, c, last a b c h3)
  where
    last : (a b c : ℤ) → (connect_sockets tries [] (three a b c)).0 ≡ ok k → k ≡ three a b c
    last a b c e = unfold connect_sockets in sym (ok_injective e)

-- The constructor returned: the connections are all there, and it is open.
made :
    (tries : Channel → List Attempt) (b : SocketBackend) (calls : List Call)
    → new_socket_backend tries ≡ (ok b, calls)
    → ((connect_sockets tries channels []).0 ≡ ok b.conns)
      × (b.is_closed ≡ false)
      × (calls ≡ (connect_sockets tries channels []).1)
unfolding new_socket_backend
made tries b calls h = ground arith

-- A backend whose constructor returned has, once it is closed, every descriptor closed that was opened,
-- and a second `close`, as the destructor makes it, closes nothing.
pub close_backend-new_socket_backend :
    (tries : Channel → List Attempt) (b : SocketBackend) (calls : List Call)
    → new_socket_backend tries ≡ (ok b, calls)
    → (after (calls ++ (close_backend b).1) [] ≡ []) × ((close_backend (close_backend b).0).1 ≡ [])
unfolding close_backend
close_backend-new_socket_backend tries b calls h =
    let (through, open_still, all) = made tries b calls h in
    let (x, y, z, e) = connected_all tries b.conns through in
    let opens : after calls [] ≡ onto (three x y z) [] =
      ap (λ (cs : List Call). after cs []) all
      ∙ after-connect_sockets tries channels [] b.conns [] through
      ∙ ap (λ (k : Conns). onto k []) e in
    let closes : (close_backend b).1 ≡ closing x y z =
      ap (λ (p : SocketBackend × List Call). p.1) (if_false b.is_closed _ _ open_still)
      ∙ ap close_calls e in
    (
      after-append calls (close_backend b).1 []
          ∙ ap (λ (cs : List Call). after cs (after calls [])) closes
          ∙ ap (after (closing x y z)) opens
          ∙ closed_three x y z,
      twice b open_still,
    )
  where
    twice : (b : SocketBackend) → b.is_closed ≡ false → (close_backend (close_backend b).0).1 ≡ []
    twice b e = ground arith
