-- ===== src/Ns3/Tcp.antt =====
-- The two ends of a TCP connection in examples/ns3/nsb-testing-tcp.cc. Each socket has an entry of its own
-- in `activeSends` and in `activeReceives`, so the state is that of one socket.
use nsb_ci.Prelude.{
  min, ℕ, ℤ, pos, negsuc, zero, suc, ◌+◌, ◌-◌, ◌%◌, ◌^◌, ltb, ◌==◌, Bytes, bytes, to_string, Bool,
  true, false, List, [], ◌∷◌, ◌++◌, Option, none, some, if◌then◌else◌, length, take, drop,
}
use nsb_ci.Daemon.{Os, Outcome, ok, thrown, undefined, ◌>>=◌}
use nsb_ci.Db.{Redis}
use nsb_ci.Client.{Client, Done}
use nsb_ci.Client.Sim.{post}
use nsb_ci.Hosts.{stoi, host_name}

-- `PendingTransfer`; `bytesSent` is a `uint32_t`.
pub record PendingTransfer : Type 0 where
  pub src_id : Bytes
  pub dest_id : Bytes
  pub payload : Bytes
  pub bytes_sent : ℕ

-- A turn of the loop: what `GetTxAvailable` says, and what `Send` returns, `none` for a negative number.
pub record Chunk : Type 0 where
  pub space : ℕ
  pub result : Option ℕ

abbrev pub u32 : ℕ → ℕ
u32 n = n % 2 ^ 32

-- `toSend`
abbrev pub to_send : PendingTransfer → ℕ → ℕ
to_send t space = min (u32 (length t.payload - t.bytes_sent)) space

-- The sending end: the entry of `activeSends`, what was written, and whether the socket is open.
pub record Sender : Type 0 where
  pub transfer : Option PendingTransfer
  pub written : Bytes
  pub socket_open : Bool

-- Whether `Send` failed, which leaves the function.
pub record Wrote : Type 0 where
  pub transfer : PendingTransfer
  pub written : Bytes
  pub failed : Bool

abbrev pub advance : ℕ → PendingTransfer → PendingTransfer
advance n t = record t { bytes_sent = u32 (t.bytes_sent + n) }

-- The bytes of a packet that `Send` took.
abbrev pub piece : ℕ → ℕ → PendingTransfer → Bytes
piece space n t = take n (take (to_send t space) (drop t.bytes_sent t.payload))

-- The loop. Where the list ends, the buffer is full.
unfoldable pub write_loop : List Chunk → PendingTransfer → Bytes → Wrote
write_loop [] t w = record { transfer = t; written = w; failed = false }
write_loop (c ∷ cs) t w = elim (ltb t.bytes_sent (length t.payload)) [
  | false ↦ record { transfer = t; written = w; failed = false }
  | true ↦ elim (ltb 0 c.space) [
    | false ↦ record { transfer = t; written = w; failed = false }
    | true ↦ elim c.result [
      | none ↦ record { transfer = t; written = w; failed = true }
      | some n ↦ write_loop cs (advance n t) (w ++ piece c.space n t)
    ]
  ]
]

-- `WriteUntilBufferFull`: a transfer that is complete is forgotten, and its socket closed.
unfoldable pub after_loop : Wrote → Sender
after_loop r =
    if r.failed
    then record { transfer = some r.transfer; written = r.written; socket_open = true }
    else if ltb r.transfer.bytes_sent (length r.transfer.payload)
    then record { transfer = some r.transfer; written = r.written; socket_open = true }
    else record { transfer = none; written = r.written; socket_open = false }

unfoldable pub write_until_full : List Chunk → Sender → Sender
write_until_full cs s = elim s.transfer [
  | none ↦ s
  | some t ↦ after_loop (write_loop cs t s.written)
]

-- The calls of it for one socket, the first by whoever starts the transfer.
unfoldable pub write_calls : List (List Chunk) → Sender → Sender
write_calls [] s = s
write_calls (cs ∷ calls) s = write_calls calls (write_until_full cs s)

-- `ReceiveBuffer`
pub record ReceiveBuffer : Type 0 where
  pub src_id : Bytes
  pub dest_id : Bytes
  pub bytes : Bytes

-- What stands after the last dot: 46.
unfoldable pub after_last_dot : Bytes → Option Bytes
after_last_dot [] = none
after_last_dot (c ∷ s) = elim (after_last_dot s) [
  | some t ↦ some t
  | none ↦ if c == 46 then some s else none
]

-- `i - 1`
unfoldable pub pred_int : ℤ → Outcome ℤ
pred_int (pos zero) = ok (negsuc 0)
pred_int (pos (suc n)) = ok (pos n)
pred_int (negsuc n) = if ltb n (2 ^ 31 - 1) then ok (negsuc (suc n)) else undefined

-- `stoi(ip.substr(lastDot + 1)) - 1`, as a name.
unfoldable pub name_of_ip : Bytes → Outcome (Option Bytes)
name_of_ip ip = elim (after_last_dot ip) [
  | none ↦ ok none
  | some s ↦ do n ← stoi s; i ← pred_int n; ok (some (bytes "host" ++ to_string i))
]

-- The packet that begins a connection, at a node and from an address.
unfoldable pub begin_buffer : ℕ → Bytes → Outcome (Option ReceiveBuffer)
begin_buffer node ip = do
  src ← name_of_ip ip
  ok (elim src [
    | none ↦ none
    | some id ↦ some (record { src_id = id; dest_id = host_name node; bytes = [] })
  ])

abbrev pub append_packet : Bytes → ReceiveBuffer → ReceiveBuffer
append_packet p b = record b { bytes = b.bytes ++ p }

-- The packets of a buffer that has begun; an empty packet ends the loop.
unfoldable pub read_packets : List Bytes → ReceiveBuffer → ReceiveBuffer
read_packets [] b = b
read_packets ([] ∷ ps) b = b
read_packets ((c ∷ p) ∷ ps) b = read_packets ps (append_packet (c ∷ p) b)

-- `TcpReceiveCallback`, over the packets that can be read. Without a dot in the address it returns.
unfoldable pub tcp_receive :
    ℕ → Bytes → List Bytes → Option ReceiveBuffer → Outcome (Option ReceiveBuffer)
tcp_receive node ip ps (some b) = ok (some (read_packets ps b))
tcp_receive node ip [] none = ok none
tcp_receive node ip ([] ∷ ps) none = ok none
tcp_receive node ip ((c ∷ p) ∷ ps) none = do
  begun ← begin_buffer node ip
  ok (elim begun [ none ↦ none | some b ↦ some (read_packets ((c ∷ p) ∷ ps) b) ])

-- The calls of it for one socket.
unfoldable pub receive_calls :
    ℕ → Bytes → List (List Bytes) → Option ReceiveBuffer → Outcome (Option ReceiveBuffer)
receive_calls node ip [] b = ok b
receive_calls node ip (ps ∷ calls) b = do
  b' ← tcp_receive node ip ps b
  receive_calls node ip calls b'

-- An exception of `post` is caught.
abbrev pub caught {ℓ} : {A : Type ℓ} → Outcome A → Outcome (Option A)
caught thrown = ok none
caught undefined = undefined
caught (ok a) = ok (some a)

module _ {S : Type 0} (os : Os) (r : Redis S) where
  -- `TcpCloseCallback`: what was received is posted, and forgotten.
  unfoldable pub tcp_close : ℤ → Option ReceiveBuffer → Client → S → Outcome (Option (Done S Bytes))
  tcp_close tms none c s = ok none
  tcp_close tms (some b) c s = caught (post os r tms b.src_id b.dest_id b.bytes c s)
