-- ===== src/Ns3/Forward.antt =====
-- What the programs under examples/ns3 do with a message of the daemon: `PollToFetch`,
-- `ProcessQueuedMessages` and `AsyncListenerThread` of nsb-testing-tcp.cc. The nodes are numbered below
-- `nodes`, and `connects` tells whether `Connect` to an address succeeds at a node.
use nsb_ci.Prelude.{
  ℕ, ℤ, pos, negsuc, suc, ◌+◌, ◌-◌, ◌^◌, ltb, Bytes, bytes, to_string, Bool, ◌||◌, not, List, [],
  ◌∷◌, ◌++◌, Option, none, some, if◌then◌else◌, is_empty,
}
use nsb_ci.Message.{MessageEntry, entry_exists}
use nsb_ci.Daemon.{Outcome, ok, thrown, undefined, ◌>>=◌}
use nsb_ci.Hosts.{host_index, is_host}
use nsb_ci.Ns3.Tcp.{PendingTransfer, caught}

-- `BASE_IP_PREFIX + std::to_string(i)`
abbrev pub ip_of : ℤ → Bytes
ip_of i = bytes "10.1.1." ++ to_string i

-- The address of a node: `main` numbers them from 1.
abbrev pub node_address : ℕ → Bytes
node_address i = ip_of (pos (i + 1))

-- `destIndex + 1` as an int
unfoldable pub suc_int : ℤ → Outcome ℤ
suc_int (pos n) = if ltb n (2 ^ 31 - 1) then ok (pos (suc n)) else undefined
suc_int (negsuc n) = ok (if ltb 0 n then negsuc (n - 1) else pos 0)

-- `uint32_t srcIndex = …`, and `NodeList::GetNode`, which is defined for the nodes there are.
unfoldable pub node_at : ℕ → ℤ → Outcome ℕ
node_at nodes (pos n) = if ltb n nodes then ok n else undefined
node_at nodes (negsuc n) = if ltb (2 ^ 32 - 1 - n) nodes then ok (2 ^ 32 - 1 - n) else undefined

-- What becomes of a message: it is refused for its names, an exception is caught, `Connect` fails and the
-- socket is closed, or a transfer begins at a node, to an address.
pub data Forwarded : Type 0 where
  rejected failed : Forwarded
  not_connected : ℕ → Bytes → Forwarded
  connected : ℕ → Bytes → PendingTransfer → Forwarded

abbrev pub or_failed : Option Forwarded → Forwarded
or_failed none = failed
or_failed (some f) = f

abbrev pub transfer_of : MessageEntry → PendingTransfer
transfer_of e = record {
  src_id = e.source;
  dest_id = e.destination;
  payload = e.payload_obj;
  bytes_sent = 0;
}

module _ (nodes : ℕ) (connects : ℕ → Bytes → Bool) where
  -- The body of the `try`.
  unfoldable pub start_transfer : MessageEntry → Outcome Forwarded
  start_transfer e = do
    dest ← host_index e.destination
    next ← suc_int dest
    src ← host_index e.source
    node ← node_at nodes src
    let address = ip_of next
    let begun = connected node address (transfer_of e)
    ok (if connects node address then begun else not_connected node address)

  -- What both functions do with an entry.
  unfoldable pub forward_entry : MessageEntry → Outcome Forwarded
  forward_entry e =
      if is_empty e.source || is_empty e.destination
      then ok rejected
      else if not (is_host e.source) || not (is_host e.destination)
      then ok rejected
      else (do f ← caught (start_transfer e); ok (or_failed f))

  -- What `PollToFetch` does, with what its fetch gave; it then schedules itself again, on every path.
  unfoldable pub poll_to_fetch : Outcome MessageEntry → Outcome (Option Forwarded)
  poll_to_fetch thrown = ok none
  poll_to_fetch undefined = undefined
  poll_to_fetch (ok e) = if entry_exists e then (do f ← forward_entry e; ok (some f)) else ok none

  -- The loop of `ProcessQueuedMessages`.
  unfoldable pub process_queued : List MessageEntry → Outcome (List Forwarded)
  process_queued [] = ok []
  process_queued (e ∷ es) = do f ← forward_entry e; fs ← process_queued es; ok (f ∷ fs)

-- The listener thread and the simulator share `messageQueue`, each step with one hold of its lock: the
-- thread fetches something or nothing, or the loop of `ProcessQueuedMessages` takes one turn.
pub data Step : Type 0 where
  heard : Outcome MessageEntry → Step
  turn : Step

-- One turn of `AsyncListenerThread`.
unfoldable pub listener_turn :
    Outcome MessageEntry → List MessageEntry → Outcome (List MessageEntry)
listener_turn thrown queue = ok queue
listener_turn undefined queue = undefined
listener_turn (ok e) queue = ok (if entry_exists e then queue ++ e ∷ [] else queue)

module _ (nodes : ℕ) (connects : ℕ → Bytes → Bool) where
  -- A run of both, with what became of the messages, in order. A turn that finds the queue empty ends its
  -- `ProcessQueuedMessages`; the turn that follows it is of the next one.
  unfoldable pub run_steps :
      List Step → List MessageEntry → Outcome (List MessageEntry × List Forwarded)
  run_steps [] queue = ok (queue, [])
  run_steps (heard e ∷ steps) queue = do queue' ← listener_turn e queue; run_steps steps queue'
  run_steps (turn ∷ steps) [] = run_steps steps []
  run_steps (turn ∷ steps) (e ∷ queue) = do
    f ← forward_entry nodes connects e
    (queue', later) ← run_steps steps queue
    ok (queue', f ∷ later)
