-- ===== src/Ns3/Udp.antt =====
-- `PollToFetch` and `ReceivePacket` of examples/ns3/nsb-testing.cc, over UDP. Nothing here is caught.
use nsb_ci.Prelude.{ℕ, ℤ, Bytes, bytes, to_string, Option, none, some, ◌++◌, if◌then◌else◌}
use nsb_ci.Message.{MessageEntry, entry_exists}
use nsb_ci.Daemon.{Os, Outcome, ok, ◌>>=◌}
use nsb_ci.Db.{Redis}
use nsb_ci.Client.{Client, Done}
use nsb_ci.Client.Sim.{post}
use nsb_ci.Hosts.{substr, stoi, host_index, host_name}
use nsb_ci.Ns3.Tcp.{after_last_dot, pred_int}
use nsb_ci.Ns3.Forward.{node_at}

-- What a node sends: from where, to which address, and what.
pub record Datagram : Type 0 where
  pub node : ℕ
  pub to_ip : Bytes
  pub bytes : Bytes

-- The address is made of the text of the destination's number, as it is.
unfoldable pub datagram_of : ℕ → MessageEntry → Outcome Datagram
datagram_of nodes e = do
  number ← substr 4 e.destination
  i ← host_index e.source
  node ← node_at nodes i
  ok (record { node = node; to_ip = bytes "10.1.1." ++ number; bytes = e.payload_obj })

-- `PollToFetch`, with what its fetch gave. It schedules itself again where it returns.
unfoldable pub poll_udp : ℕ → MessageEntry → Outcome (Option Datagram)
poll_udp nodes e = if entry_exists e then (do d ← datagram_of nodes e; ok (some d)) else ok none

-- What stands after the last dot, the whole text where there is none.
abbrev pub last_number : Bytes → Bytes
last_number ip = elim (after_last_dot ip) [ none ↦ ip | some s ↦ s ]

unfoldable pub source_of : Bytes → Outcome Bytes
source_of ip = do n ← stoi (last_number ip); i ← pred_int n; ok (bytes "host" ++ to_string i)

module _ {S : Type 0} (os : Os) (r : Redis S) where
  -- `ReceivePacket` at a node, from an address.
  unfoldable pub receive_packet : ℤ → ℕ → Bytes → Bytes → Client → S → Outcome (Done S Bytes)
  receive_packet tms node from_ip payload c s = do
    src ← source_of from_ip
    post os r tms src (host_name node) payload c s
