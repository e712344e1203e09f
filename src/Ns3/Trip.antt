-- ===== src/Ns3/Trip.antt =====
-- A payload from one application client to another through the daemon and nodes of ns-3 that are joined by TCP:
-- `PollToFetch` of examples/ns3/nsb-testing-tcp.cc fetches it and begins a transfer, and `TcpCloseCallback` posts
-- what arrived.
use nsb_ci.Prelude.{
  ℕ, ℤ, Bytes, Bool, true, false, List, Option, none, some, ◌≡◌, refl, All, if◌then◌else◌,
}
use nsb_ci.Message.{MessageEntry}
use nsb_ci.Daemon.{Daemon, Os, Outcome, ok, thrown, undefined, ◌>>=◌}
use nsb_ci.Db.{Redis}
use nsb_ci.Client.{Client, Done}
use nsb_ci.Client.Sim.{fetch_any}
use nsb_ci.Client.Journey.{Ends}
use nsb_ci.Client.Homeward.{take_out}
use nsb_ci.Client.Next.{put_in, ask_on}
use nsb_ci.Ns3.Tcp.{Chunk, write_calls, receive_calls, caught, tcp_close}
use nsb_ci.Ns3.Forward.{Forwarded, connected, node_address, transfer_of, poll_to_fetch}
use nsb_ci.Ns3.Streams.{AcceptsAll, sender_of}
use nsb_ci.Ns3.Crossing.{Filled, all_of}

-- What the simulated network does: which connections it makes, which node has an address, what each call of the
-- writing end may write, and in which calls and packets the reading end gets what was written.
pub record Network : Type 0 where
  pub connects : ℕ → Bytes → Bool
  pub owner : Bytes → ℕ
  pub writes : List (List Chunk)
  pub cuts : Bytes → List (List Bytes)

-- The network connects node i with node j, takes the whole of an entry, and carries it.
pub record Carries (net : Network) (i j : ℕ) (e : MessageEntry) : Type 0 where
  pub up : net.connects i (node_address j) ≡ true
  pub owned : net.owner (node_address j) ≡ j
  pub takes : AcceptsAll net.writes (sender_of (transfer_of e))
  pub ended : (write_calls net.writes (sender_of (transfer_of e))).socket_open ≡ false
  pub filled : All Filled (net.cuts e.payload_obj)
  pub whole : all_of (net.cuts e.payload_obj) ≡ e.payload_obj

pub bind_assoc :
    {A B C : Type 0} (m : Outcome A) (f : A → Outcome B) (g : B → Outcome C)
    → (m >>= λ a. f a >>= g) ≡ (m >>= f >>= g)
bind_assoc (ok a) f g = refl
bind_assoc thrown f g = refl
bind_assoc undefined f g = refl

module _ {S : Type 0} (os : Os) (r : Redis S) where
  -- What the application client takes out, if something was posted.
  unfoldable pub taken_out :
      Option (Done S Bytes) → Client → Ends → Daemon → Outcome (Option (S × Daemon × MessageEntry))
  taken_out none peer ends d = ok none
  taken_out (some out) peer ends d = do
    t ← take_out os r out peer ends.posts ends.receives d
    ok (some t)

  -- A transfer whose socket is closed ends the connection at the node of its address.
  unfoldable pub transfers :
      Network
      → ℤ
      → Option Forwarded
      → Client
      → Client
      → Ends
      → S
      → Daemon
      → Outcome (Option (S × Daemon × MessageEntry))
  transfers net tms (some (connected node address t)) sim peer ends s d =
      let w = write_calls net.writes (sender_of t) in
      if w.socket_open then ok none else (do
        b ← receive_calls (net.owner address) (node_address node) (net.cuts w.written) none
        out ← tcp_close os r tms b sim s
        taken_out out peer ends d)
  transfers net tms _ sim peer ends s d = ok none

  unfoldable pub polled :
      ℕ
      → Network
      → ℤ
      → Option (Done S MessageEntry)
      → Client
      → Ends
      → Daemon
      → Outcome (Option (S × Daemon × MessageEntry))
  polled nodes net tms none peer ends d = ok none
  polled nodes net tms (some got) peer ends d = do
    f ← poll_to_fetch nodes net.connects (ok got.result)
    transfers net tms f got.client peer ends got.db d

  -- `app` sends to `peer`; the simulator asks the daemon, and forwards what it gets.
  unfoldable pub over_tcp :
      ℕ
      → Network
      → ℤ
      → ℤ
      → Bytes
      → Client
      → Client
      → Client
      → Ends
      → S
      → Daemon
      → Outcome (Option (S × Daemon × MessageEntry))
  over_tcp nodes net tms tms' payload app sim peer ends s d = do
    (s', d') ← put_in os r tms peer.client_id payload app ends.sends s d
    (d'', response) ← ask_on os r sim ends.fetches d'
    got ← caught (fetch_any os r response sim s')
    polled nodes net tms' got peer ends d''
