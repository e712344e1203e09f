-- ===== src/Ns3/Misdelivery.antt =====
-- Where a message of examples/ns3/nsb-testing.cc arrives.
use nsb_ci.Prelude.{
  ℕ, ℤ, pos, suc, ◌+◌, ◌<◌, ◌^◌, Bytes, bytes, to_string, some, ◌≡◌, refl, ◌≢◌, true, arith, ap,
  ◌∙◌,
}
use nsb_ci.Message.{MessageEntry, entry_exists}
use nsb_ci.Daemon.{Os, ok}
use nsb_ci.Db.{Redis}
use nsb_ci.Client.{Client}
use nsb_ci.Client.Sim.{post}
use nsb_ci.Hosts.{substr, stoi, host_index, host_name}
use nsb_ci.Hosts.Numbers.{stoi-to_string, host_index-host_name, host_name-injective}
use nsb_ci.Ns3.Tcp.{after_last_dot, pred_int}
use nsb_ci.Ns3.Forward.{node_address}
use nsb_ci.Ns3.Names.{last_of-node_address, node_at-lt}
use nsb_ci.Ns3.Udp.{Datagram, datagram_of, poll_udp, source_of, receive_packet}

abbrev pub datagram : ℕ → Bytes → Bytes → Datagram
datagram node ip bytes = record { node = node; to_ip = ip; bytes = bytes }

substr-host_name : (j : ℕ) → substr 4 (host_name j) ≡ ok (to_string (pos j))
unfolding substr
substr-host_name j = ground arith

source_of-last :
    (ip t : Bytes) (n : ℕ)
    → after_last_dot ip ≡ some t
    → stoi t ≡ ok (pos (suc n))
    → source_of ip ≡ ok (host_name n)
unfolding source_of pred_int
source_of-last ip t n e f = ground (arith, e, f)

source_of-node_address : (i : ℕ) → i + 1 < 2 ^ 31 → source_of (node_address i) ≡ ok (host_name i)
source_of-node_address i h =
    let e : i + 1 ≡ suc i = omega arith in
    source_of-last (node_address i) (to_string (pos (i + 1))) i (last_of-node_address i)
      (stoi-to_string (i + 1) h ∙ ap (λ k. ok (pos k)) e)

module _ {S : Type 0} (os : Os) (r : Redis S) where
  polls :
      (nodes i j : ℕ) (e : MessageEntry)
      → e.source ≡ host_name i
      → e.destination ≡ host_name (j + 1)
      → entry_exists e ≡ true
      → i < nodes
      → i < 2 ^ 31
      → poll_udp nodes e ≡ ok (some (datagram i (node_address j) e.payload_obj))
  unfolding poll_udp datagram_of
  polls nodes i j e src dest exists node small =
      rw
        (
          exists,
          ap (substr 4) dest ∙ substr-host_name (j + 1),
          ap host_index src ∙ host_index-host_name i small,
          node_at-lt nodes i node,
        )
        refl

  posts :
      (i j : ℕ) (tms : ℤ) (payload : Bytes) (c : Client) (s : S)
      → i + 1 < 2 ^ 31
      → receive_packet os r tms j (node_address i) payload c s
        ≡ post os r tms (host_name i) (host_name j) payload c s
  unfolding receive_packet
  posts i j tms payload c s small = rw (source_of-node_address i small) refl

  -- A message from "host" i to "host" j + 1 is sent by node i to the address of node j, and node j posts it with
  -- the right source and payload, but with "host" j for its destination, which is another name. The message exists,
  -- there is a node i, and i + 1 is below 2 ^ 31.
  pub receive_packet-poll_udp :
      (nodes i j : ℕ) (e : MessageEntry) (tms : ℤ) (c : Client) (s : S)
      → e.source ≡ host_name i
      → e.destination ≡ host_name (j + 1)
      → entry_exists e ≡ true
      → i < nodes
      → i + 1 < 2 ^ 31
      → (poll_udp nodes e ≡ ok (some (datagram i (node_address j) e.payload_obj)))
        × (receive_packet os r tms j (node_address i) e.payload_obj c s
            ≡ post os r tms e.source (host_name j) e.payload_obj c s)
        × (host_name j ≢ e.destination)
  receive_packet-poll_udp nodes i j e tms c s src dest exists node small = (
    polls nodes i j e src dest exists node (omega arith),
    rw src (posts i j tms e.payload_obj c s small),
    λ same. omega (arith, host_name-injective j (j + 1) (same ∙ dest)),
  )
