-- ===== src/Ns3/Streams.antt =====
-- What `WriteUntilBufferFull` of examples/ns3/nsb-testing-tcp.cc writes over all its calls.
use nsb_ci.Prelude.{
  ℕ, suc, ◌-◌, ◌^◌, ◌≤◌, ◌<◌, ltb, Bytes, Bool, true, false, List, [], ◌∷◌, ◌++◌, Option, none,
  some, ◌≡◌, refl, ◌↔◌, arith, length, drop, take-drop, take_all, length-take, append-nil, All, ap,
  sym, ◌∙◌, Bool-cases, inl, inr,
}
use nsb_ci.Ns3.Writing.{Accepts, IsAt, Looped, Moves, write_loop-Looped, write_loop-Moves}
use nsb_ci.Ns3.Tcp.{
  PendingTransfer, Chunk, Sender, Wrote, write_loop, after_loop, write_until_full, write_calls,
}

-- A sender writes the payload `p` from its beginning on, and has written it once its transfer is forgotten.
abbrev pub IsSending : Bytes → Sender → Type 0
IsSending p s = elim s.transfer [
  | none ↦ (s.written ≡ p) × (s.socket_open ≡ false)
  | some t ↦ IsAt p t s.written × (t.bytes_sent < length p) × (s.socket_open ≡ true)
]

abbrev left_of : Sender → ℕ
left_of s = elim s.transfer [ none ↦ 0 | some t ↦ length t.payload - t.bytes_sent ]

-- The sender of a transfer that begins.
abbrev pub sender_of : PendingTransfer → Sender
sender_of t = record { transfer = some t; written = []; socket_open = true }

-- In every call, at the transfer as it is then.
abbrev pub AcceptsAll : List (List Chunk) → Sender → Type 0
AcceptsAll [] s = Unit {0}
AcceptsAll (cs ∷ calls) s =
    (elim s.transfer [ none ↦ Unit {0} | some t ↦ Accepts cs t ])
    × AcceptsAll calls (write_until_full cs s)

module _ (p : Bytes) (small : length p < 2 ^ 32) where
  IsSending-after_loop :
      (t : PendingTransfer) (r : Wrote) → Looped p t r → IsSending p (after_loop r)
  unfolding after_loop
  IsSending-after_loop t r l = elim (Bool-cases r.failed) [
    | inl failed ↦ rw (failed, after_loop) (l.at, l.unfinished failed, refl)
    | inr fine ↦ elim (Bool-cases (ltb r.transfer.bytes_sent (length r.transfer.payload))) [
      | inl more ↦ rw (fine, more, after_loop) (l.at, ground (arith, ap length l.at.same), refl)
      | inr all ↦
          rw (fine, all, after_loop)
            (
              l.at.written ∙ take_all r.transfer.bytes_sent p (ground (arith, ap length l.at.same)),
              refl,
            )
    ]
  ]

  left_of-after_loop :
      (t : PendingTransfer) (r : Wrote)
      → Looped p t r
      → left_of (after_loop r) ≤ length p - r.transfer.bytes_sent
  unfolding after_loop
  left_of-after_loop t r l = ground (arith, ap length l.at.same)

  -- One call, by what the transfer is.
  sends_on :
      (o : Option PendingTransfer) (cs : List Chunk) (w : Bytes) (up : Bool)
      → IsSending p (record { transfer = o; written = w; socket_open = up })
      → AcceptsAll (cs ∷ []) (record { transfer = o; written = w; socket_open = up })
      → IsSending p (write_until_full cs (record { transfer = o; written = w; socket_open = up }))
  unfolding write_until_full
  sends_on none cs w up h a = h
  sends_on (some t) cs w up h a =
      IsSending-after_loop t (write_loop cs t w) (write_loop-Looped p small cs t w a.0 h.0)

  falls :
      (o : Option PendingTransfer) (cs : List Chunk) (w : Bytes) (up : Bool) (fuel : ℕ)
      → IsSending p (record { transfer = o; written = w; socket_open = up })
      → AcceptsAll (cs ∷ []) (record { transfer = o; written = w; socket_open = up })
      → Moves cs
      → left_of (record { transfer = o; written = w; socket_open = up }) ≤ suc fuel
      → left_of (write_until_full cs (record { transfer = o; written = w; socket_open = up }))
        ≤ fuel
  unfolding write_until_full
  falls none cs w up fuel h a m le = omega arith
  falls (some t) cs w up fuel h a m le =
      let r = write_loop cs t w in
      let l = left_of-after_loop t r (write_loop-Looped p small cs t w a.0 h.0) in
      let g = write_loop-Moves p small cs t w a.0 h.0 h.1 m in
      omega (arith, l, g, ap length (h.0).same)

  write_calls-IsSending :
      (calls : List (List Chunk)) (s : Sender)
      → IsSending p s
      → AcceptsAll calls s
      → IsSending p (write_calls calls s)
  unfolding write_calls
  write_calls-IsSending [] s h a = h
  write_calls-IsSending (cs ∷ calls) s h a =
      write_calls-IsSending calls (write_until_full cs s)
        (sends_on s.transfer cs s.written s.socket_open h (a.0, tt)) a.1

  begins :
      (t : PendingTransfer)
      → t.payload ≡ p
      → t.bytes_sent ≡ 0
      → 0 < length p
      → IsSending p (sender_of t)
  begins t e z positive =
      (record { same = e; written = rw z refl; within = omega arith }, omega arith, refl)

  splits :
      (o : Option PendingTransfer) (w : Bytes) (up : Bool)
      → IsSending p (record { transfer = o; written = w; socket_open = up })
      → ((later : Bytes) × (p ≡ w ++ later)) × ((up ≡ false) ↔ (w ≡ p))
  splits none w up h = (([], rw (h.0) (sym (append-nil p))), (λ _. h.0, λ _. h.1))
  splits (some t) w up h = (
    (drop t.bytes_sent p, rw (h.0.written) (sym (take-drop t.bytes_sent p))),
    (
      λ e. absurd (cc (h.2)),
      λ e.
          absurd (
            omega (arith, h.1, ap length e, ap length h.0.written, length-take {0} t.bytes_sent p)),
    ),
  )

  -- Whatever space there is at each call, and wherever `Send` stops: what the calls of `WriteUntilBufferFull`
  -- have written is a beginning of the payload, with nothing twice and nothing left out, and the socket is closed
  -- exactly when that is the whole payload. The payload is not empty and shorter than 2 ^ 32 bytes, and `Send`
  -- takes no more than the packet it is given.
  pub write_calls_lem :
      (calls : List (List Chunk)) (t : PendingTransfer)
      → t.payload ≡ p
      → t.bytes_sent ≡ 0
      → 0 < length p
      → AcceptsAll calls (sender_of t)
      → let s = write_calls calls (sender_of t) in
        ((later : Bytes) × (p ≡ s.written ++ later)) × ((s.socket_open ≡ false) ↔ (s.written ≡ p))
  write_calls_lem calls t e z positive a =
      let s = write_calls calls (sender_of t) in
      splits s.transfer s.written s.socket_open
        (write_calls-IsSending calls (sender_of t) (begins t e z positive) a)

  none_left_at :
      (o : Option PendingTransfer) (w : Bytes) (up : Bool)
      → IsSending p (record { transfer = o; written = w; socket_open = up })
      → left_of (record { transfer = o; written = w; socket_open = up }) ≤ 0
      → up ≡ false
  none_left_at none w up h le = h.1
  none_left_at (some t) w up h le = absurd (omega (arith, h.1, ap length h.0.same))

  none_left : (s : Sender) → IsSending p s → left_of s ≤ 0 → s.socket_open ≡ false
  none_left s h le = none_left_at s.transfer s.written s.socket_open h le

  write_calls-closed :
      (calls : List (List Chunk)) (s : Sender)
      → IsSending p s
      → AcceptsAll calls s
      → All Moves calls
      → left_of s ≤ length calls
      → (write_calls calls s).socket_open ≡ false
  unfolding write_calls
  write_calls-closed [] s h a m le = none_left s h le
  write_calls-closed (cs ∷ calls) s h a m le =
      write_calls-closed calls (write_until_full cs s)
        (sends_on s.transfer cs s.written s.socket_open h (a.0, tt)) a.1 m.1
        (falls s.transfer cs s.written s.socket_open (length calls) h (a.0, tt) m.0 le)

  -- A transfer ends: after as many calls as the payload has bytes, if in each of them the buffer has room and
  -- `Send` takes something, the socket is closed and the whole payload has been written.
  pub write_calls-ends :
      (calls : List (List Chunk)) (t : PendingTransfer)
      → t.payload ≡ p
      → t.bytes_sent ≡ 0
      → 0 < length p
      → AcceptsAll calls (sender_of t)
      → All Moves calls
      → length p ≤ length calls
      → let s = write_calls calls (sender_of t) in (s.socket_open ≡ false) × (s.written ≡ p)
  write_calls-ends calls t e z positive a m le =
      let closed =
        write_calls-closed calls (sender_of t) (begins t e z positive) a m
          (omega (arith, ap length e)) in
      (closed, (write_calls_lem calls t e z positive a).1.0 closed)
