-- ===== src/Ns3/Crossing.antt =====
-- A message through the network of examples/ns3/nsb-testing-tcp.cc, from the entry that was fetched to
-- the post.
use nsb_ci.Prelude.{
  ℕ, ℤ, ◌+◌, ◌<◌, ◌^◌, Bytes, false, true, List, [], ◌∷◌, ◌++◌, none, some, ◌≡◌, refl, ◌≢◌, arith,
  All, append_assoc, append-nil, length, ap, sym, ◌∙◌, Bool,
}
use nsb_ci.Message.{MessageEntry}
use nsb_ci.Daemon.{Os, ok, ◌>>=◌}
use nsb_ci.Daemon.Server.{join}
use nsb_ci.Db.{Redis}
use nsb_ci.Client.{Client}
use nsb_ci.Client.Sim.{post}
use nsb_ci.Hosts.{host_name}
use nsb_ci.Ns3.Tcp.{
  ReceiveBuffer, begin_buffer, read_packets, tcp_receive, receive_calls, tcp_close, caught,
  write_calls, Chunk,
}
use nsb_ci.Ns3.Forward.{node_address, transfer_of, forward_entry, connected}
use nsb_ci.Ns3.Names.{name_of_ip-node_address, forward_entry-host_name}
use nsb_ci.Ns3.Streams.{AcceptsAll, sender_of, write_calls_lem}

-- Packets with something in them.
abbrev pub Filled : List Bytes → Type 0
Filled = All (λ p. p ≢ [])

abbrev buffer : Bytes → Bytes → Bytes → ReceiveBuffer
buffer src dest bytes = record { src_id = src; dest_id = dest; bytes = bytes }

-- The bytes that the calls of a callback were given.
abbrev pub all_of : List (List Bytes) → Bytes
all_of [] = []
all_of (ps ∷ calls) = join ps ++ all_of calls

read_packets_lem :
    (ps : List Bytes) (src dest bytes : Bytes)
    → Filled ps
    → read_packets ps (buffer src dest bytes) ≡ buffer src dest (bytes ++ join ps)
unfolding read_packets join
read_packets_lem [] src dest bytes h = ap (buffer src dest) (sym (append-nil bytes))
read_packets_lem ([] ∷ ps) src dest bytes h = absurd (h.0 refl)
read_packets_lem ((c ∷ p) ∷ ps) src dest bytes h =
    read_packets_lem ps src dest (bytes ++ c ∷ p) h.1
    ∙ ap (buffer src dest) (append_assoc bytes (c ∷ p) (join ps))

tcp_receive-buffer :
    (node : ℕ) (ip : Bytes) (ps : List Bytes) (src dest bytes : Bytes)
    → Filled ps
    → tcp_receive node ip ps (some (buffer src dest bytes))
      ≡ ok (some (buffer src dest (bytes ++ join ps)))
unfolding tcp_receive
tcp_receive-buffer node ip ps src dest bytes h =
    ap (λ b. ok (some b)) (read_packets_lem ps src dest bytes h)

receive_calls-buffer :
    (node : ℕ) (ip : Bytes) (calls : List (List Bytes)) (src dest bytes : Bytes)
    → All Filled calls
    → receive_calls node ip calls (some (buffer src dest bytes))
      ≡ ok (some (buffer src dest (bytes ++ all_of calls)))
unfolding receive_calls
receive_calls-buffer node ip [] src dest bytes h =
    ap (λ l. ok (some (buffer src dest l))) (sym (append-nil bytes))
receive_calls-buffer node ip (ps ∷ calls) src dest bytes h =
    rw (tcp_receive-buffer node ip ps src dest bytes h.0) (
      receive_calls-buffer node ip calls src dest (bytes ++ join ps) h.1
      ∙ ap (λ l. ok (some (buffer src dest l))) (append_assoc bytes (join ps) (all_of calls)))

nothing_before : (xs ys : Bytes) → xs ++ ys ≡ [] → xs ≡ []
nothing_before [] ys e = refl
nothing_before (x ∷ xs) ys e = cc

module _ (i j : ℕ) (small : i + 1 < 2 ^ 31) where
  begins : begin_buffer j (node_address i) ≡ ok (some (buffer (host_name i) (host_name j) []))
  unfolding begin_buffer
  begins = rw (name_of_ip-node_address i small) refl

  tcp_receive-none :
      (ps : List Bytes)
      → Filled ps
      → join ps ≢ []
      → tcp_receive j (node_address i) ps none
        ≡ ok (some (buffer (host_name i) (host_name j) (join ps)))
  unfolding tcp_receive join
  tcp_receive-none [] h n = absurd (n refl)
  tcp_receive-none ([] ∷ ps) h n = absurd (h.0 refl)
  tcp_receive-none ((c ∷ p) ∷ ps) h n =
      rw begins
        (ap (λ b. ok (some b)) (read_packets_lem ((c ∷ p) ∷ ps) (host_name i) (host_name j) [] h))

  tcp_receive-idle : tcp_receive j (node_address i) [] none ≡ ok none
  unfolding tcp_receive
  tcp_receive-idle = refl

  -- What a node has received from another, however it was cut into packets and calls.
  pub receive_calls-none :
      (calls : List (List Bytes))
      → All Filled calls
      → all_of calls ≢ []
      → receive_calls j (node_address i) calls none
        ≡ ok (some (buffer (host_name i) (host_name j) (all_of calls)))
  unfolding receive_calls join
  receive_calls-none [] h n = absurd (n refl)
  receive_calls-none ([] ∷ calls) h n = rw tcp_receive-idle (receive_calls-none calls h.1 n)
  receive_calls-none ((p ∷ ps) ∷ calls) h n =
      rw (tcp_receive-none (p ∷ ps) h.0 (λ e. h.0.0 (nothing_before p (join ps) e))) (
        receive_calls-buffer j (node_address i) calls (host_name i) (host_name j) (join (p ∷ ps))
          h.1)

module _ {S : Type 0} (os : Os) (r : Redis S) where
  closes :
      (tms : ℤ) (src dest bytes : Bytes) (c : Client) (s : S)
      → tcp_close os r tms (some (buffer src dest bytes)) c s
        ≡ caught (post os r tms src dest bytes c s)
  unfolding tcp_close
  closes tms src dest bytes c s = refl

  -- A message from "host" i to "host" j: a transfer begins, and once its socket has closed and TCP has handed
  -- what was written to node j, in whatever packets and calls, the end of the connection makes node j post the
  -- message with the source, the destination and the payload that were fetched. The payload is not empty and
  -- shorter than 2 ^ 32 bytes, i + 1 and j + 1 are below 2 ^ 31, there is a node i, it connects to the address of node j, and `Send` takes no
  -- more than it is given.
  pub tcp_close-forward_entry :
      (nodes i j : ℕ) (connects : ℕ → Bytes → Bool) (e : MessageEntry) (writes : List (List Chunk))
      (reads : List (List Bytes)) (tms : ℤ) (c : Client) (s : S)
      → e.source ≡ host_name i
      → e.destination ≡ host_name j
      → i < nodes
      → i + 1 < 2 ^ 31
      → j + 1 < 2 ^ 31
      → connects i (node_address j) ≡ true
      → 0 < length e.payload_obj
      → length e.payload_obj < 2 ^ 32
      → AcceptsAll writes (sender_of (transfer_of e))
      → (write_calls writes (sender_of (transfer_of e))).socket_open ≡ false
      → All Filled reads
      → all_of reads ≡ (write_calls writes (sender_of (transfer_of e))).written
      → (forward_entry nodes connects e ≡ ok (connected i (node_address j) (transfer_of e)))
        × ((receive_calls j (node_address i) reads none >>= λ b. tcp_close os r tms b c s)
            ≡ caught (post os r tms e.source e.destination e.payload_obj c s))
  tcp_close-forward_entry nodes i j connects e writes reads tms c s src dest node small small' up
        some_bytes few takes closed filled carried =
      let t = transfer_of e in
      let whole : all_of reads ≡ e.payload_obj =
        carried
        ∙ (write_calls_lem e.payload_obj few writes t refl refl some_bytes takes).1.0 closed in
      (
        forward_entry-host_name nodes connects i j e src dest node (omega arith) small' up,
        rw
            (
              receive_calls-none i j small reads filled
                  (λ n. omega (arith, ap length (sym whole ∙ n))),
              whole,
              src,
              dest,
            )
            (closes tms (host_name i) (host_name j) e.payload_obj c s),
      )
