-- ===== src/Omnet/Crossing.antt =====
-- A message from the daemon through `nsbBasicApp`, a packet and `nsbAppSink` to the daemon.
use nsb_ci.Prelude.{ℤ, ◌+◌, ◌<◌, ◌^◌, Bytes, true, [], ◌∷◌, ◌++◌, ◌≡◌, refl, length}
use nsb_ci.Message.{MessageEntry, entry_exists}
use nsb_ci.Daemon.{Os, Outcome, ok, ◌>>=◌}
use nsb_ci.Db.{Redis}
use nsb_ci.Client.{Client, Done}
use nsb_ci.Client.Sim.{fetch_any, post}
use nsb_ci.Omnet.Frames.{read_frame-whole_iff}
use nsb_ci.Omnet.Source.{Node, Packet, packet_of, fetched, sent_packet, send_packet}
use nsb_ci.Omnet.Sink.{Sink, process_packet}

-- What the sink does with a message: it posts it, and counts it if that returns.
abbrev pub posts :
    {S : Type 0}
    → Os
    → Redis S
    → ℤ
    → MessageEntry
    → Sink
    → Client
    → S
    → Outcome (Done S Bytes × Sink)
posts os r tms e k c s = post os r tms e.source e.destination e.payload_obj c s >>= λ d.
    ok (d, record k { num_received = k.num_received + 1 })

module _ {T : Type 0} (os : Os) (r : Redis T) where
  pub process_packet-packet_of :
      (tms : ℤ) (e : MessageEntry) (address : Bytes) (port : ℤ) (k : Sink) (c : Client) (s : T)
      → length e.source < 2 ^ 16
      → length e.destination < 2 ^ 16
      → process_packet os r tms (packet_of e address port).bytes k c s ≡ posts os r tms e k c s
  unfolding process_packet
  process_packet-packet_of tms e address port k c s h h' =
      rw ((read_frame-whole_iff e.source e.destination e.payload_obj).1 (h, h')) refl

module _ {S T : Type 0} (os : Os) (r : Redis S) (r' : Redis T) where
  pub sends_one :
      (resolve : Bytes → Outcome Bytes) (port : ℤ) (response address : Bytes) (n : Node S)
      (d : Done S MessageEntry)
      → fetch_any os r response n.client n.db ≡ ok d
      → entry_exists d.result ≡ true
      → resolve d.result.destination ≡ ok address
      → send_packet os r resolve port response n
        ≡ ok (sent_packet (packet_of d.result address port) (fetched d n))
  unfolding send_packet
  sends_one resolve port response address n d e exists f = rw (e, exists, f) refl

  -- A message that the basic application fetches goes out in one packet, to the address of its destination,
  -- and the sink that gets this packet posts the message with the source, the destination and the payload
  -- that were fetched. The fetched entry exists, its names are shorter than 2 ^ 16 bytes, and its destination
  -- resolves. The two applications have clients and databases of their own.
  pub process_packet-send_packet :
      (resolve : Bytes → Outcome Bytes) (port tms : ℤ) (response address : Bytes) (n : Node S)
      (d : Done S MessageEntry) (k : Sink) (c : Client) (s : T)
      → fetch_any os r response n.client n.db ≡ ok d
      → entry_exists d.result ≡ true
      → length d.result.source < 2 ^ 16
      → length d.result.destination < 2 ^ 16
      → resolve d.result.destination ≡ ok address
      → (n' : Node S) × (p : Packet) × (send_packet os r resolve port response n ≡ ok n')
        × (n'.packets ≡ n.packets ++ p ∷ [])
        × (p.address ≡ address)
        × (process_packet os r' tms p.bytes k c s ≡ posts os r' tms d.result k c s)
  process_packet-send_packet resolve port tms response address n d k c s e exists h h' f = (
    sent_packet (packet_of d.result address port) (fetched d n),
    packet_of d.result address port,
    sends_one resolve port response address n d e exists f,
    refl,
    refl,
    process_packet-packet_of os r' tms d.result address port k c s h h',
  )
