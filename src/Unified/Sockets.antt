-- ===== src/Unified/Sockets.antt =====
-- The clients of cpp/rabbit/src/NSBUnified.cpp over sockets beside those of cpp/src/nsb_client.cc.
use nsb_ci.Prelude.{ℤ, pos, Bytes, List, [], ◌∷◌, Option, none, some, ◌≡◌, ◌≢◌, ◌⊎◌}
use nsb_ci.Message.{
  Nsbm, Operation, SystemMode, SimulatorMode, MessageEntry, blank_entry, get_manifest,
}
use nsb_ci.Daemon.{Os, Outcome, ok, ◌>>=◌}
use nsb_ci.Db.{Redis}
use nsb_ci.Client.{Client, Sent, Done}
use nsb_ci.Client.App.{send, receive}
use nsb_ci.Client.Sim.{fetch, post}
use nsb_ci.Unified.{Unified, Message}
use nsb_ci.Unified.Calls.{send_unified, post_unified, receive_unified, fetch_unified}

-- What a client can be asked for, an empty name standing for none; for RECEIVE and FETCH with a timeout and
-- with what is received within one.
pub data SocketCall : Type 0 where
  send_to : ℤ → Bytes → Bytes → SocketCall
  post_for : ℤ → Bytes → Bytes → Bytes → SocketCall
  receive_for : Bytes → ℤ → (ℤ → Option Bytes) → SocketCall
  fetch_from : Bytes → ℤ → (ℤ → Option Bytes) → SocketCall

-- The client of the same state.
abbrev pub as_client : Unified → Client
as_client c = record { client_id = c.id; origin = some c.origin; cfg = c.cfg; db = c.db }

abbrev as_sent : List Message → List Sent
as_sent [] = []
as_sent (m ∷ ms) = record { channel = m.channel; wire = m.wire } ∷ as_sent ms

abbrev named : Bytes → Option Bytes
named [] = none
named (b ∷ bs) = some (b ∷ bs)

abbrev text : Option Bytes → Bytes
text none = []
text (some wire) = wire

-- What is received is not empty, and no SEND or POST, which a daemon never answers with.
abbrev pub Answers : Os → Option Bytes → Type 0
Answers os none = Unit {0}
Answers os (some wire) =
    (wire ≢ [])
    × ((m : Nsbm)
        → os.parse wire ≡ some m
        → ((get_manifest m).op ≢ Operation.send) × ((get_manifest m).op ≢ Operation.post))

-- A system-wide simulator names a source, and one per node names none.
abbrev pub Names : SimulatorMode → Bytes → Type 0
Names mode src =
    ((mode ≡ SimulatorMode.system_wide) × (src ≢ []))
    ⊎ ((mode ≡ SimulatorMode.per_node) × (src ≡ []))

abbrev pub IsOrdinary : Os → Unified → SocketCall → Type 0
IsOrdinary os c (send_to tms dest payload) = Unit {0}
IsOrdinary os c (post_for tms src dest payload) = Unit {0}
IsOrdinary os c (receive_for dest timeout recv) =
    Answers os (recv timeout) × (c.cfg.system_mode ≡ SystemMode.push → timeout ≡ pos 0)
IsOrdinary os c (fetch_from src timeout recv) =
    Answers os (recv timeout)
    × (c.cfg.system_mode ≡ SystemMode.push → timeout ≡ pos 0)
    × (c.cfg.system_mode ≡ SystemMode.pull → Names c.cfg.simulator_mode src)

module _ {S : Type 0} (os : Os) (r : Redis S) where
  -- The database, what is sent, and the entry.
  unfoldable pub call_unified : SocketCall → Unified → S → S × List Sent × MessageEntry
  call_unified (send_to tms dest payload) c s =
      let (s', c', m, key) = send_unified os r tms dest payload c s in
      (s', as_sent (m ∷ []), blank_entry)
  call_unified (post_for tms src dest payload) c s =
      let (s', c', m, key) = post_unified os r tms src dest payload c s in
      (s', as_sent (m ∷ []), blank_entry)
  call_unified (receive_for dest timeout recv) c s =
      let (asks, s', e) = receive_unified os r dest timeout recv c s in (s', as_sent asks, e)
  call_unified (fetch_from src timeout recv) c s =
      let (asks, s', e) = fetch_unified os r src timeout recv c s in (s', as_sent asks, e)

  abbrev gives :
      {A : Type 0}
      → (A → MessageEntry)
      → Outcome (Done S A)
      → Outcome (S × List Sent × MessageEntry)
  gives entry o = o >>= λ d. ok (d.db, d.sent, entry d.result)

  unfoldable pub call_classic : SocketCall → Client → S → Outcome (S × List Sent × MessageEntry)
  call_classic (send_to tms dest payload) c s =
      gives (λ k. blank_entry) (send os r tms dest payload c s)
  call_classic (post_for tms src dest payload) c s =
      gives (λ k. blank_entry) (post os r tms src dest payload c s)
  call_classic (receive_for dest timeout recv) c s =
      gives (λ e. e) (receive os r (named dest) (text (recv timeout)) c s)
  call_classic (fetch_from src timeout recv) c s =
      gives (λ e. e) (fetch os r (named src) (text (recv timeout)) c s)
