-- ===== src/Ns3/Writing.antt =====
-- One call of `WriteUntilBufferFull` of examples/ns3/nsb-testing-tcp.cc.
use nsb_ci.Prelude.{
  ℕ, ◌+◌, ◌-◌, ◌^◌, ◌≤◌, ◌<◌, ltb, Bytes, true, false, List, [], ◌∷◌, ◌++◌, Option, none, some, ◌≡◌,
  arith, length, take, drop, take-take, take_more, ap, ◌∙◌, subst, Bool-cases, Option-cases, inl,
  inr,
}
use nsb_ci.Ns3.Tcp.{PendingTransfer, Chunk, u32, to_send, Wrote, advance, piece, write_loop}

-- `Send` takes no more than it is given.
abbrev pub Accepts : List Chunk → PendingTransfer → Type 0
Accepts [] t = Unit {0}
Accepts (c ∷ cs) t = elim c.result [
  | none ↦ Unit {0}
  | some n ↦ (n ≤ to_send t c.space) × Accepts cs (advance n t)
]

-- So far the payload has been written up to `bytesSent`.
pub record IsAt (p : Bytes) (t : PendingTransfer) (w : Bytes) : Type 0 where
  pub same : t.payload ≡ p
  pub written : w ≡ take t.bytes_sent p
  pub within : t.bytes_sent ≤ length p

module _ (p : Bytes) (small : length p < 2 ^ 32) where
  pub IsAt-advance :
      (t : PendingTransfer) (w : Bytes) (space n : ℕ)
      → n ≤ to_send t space
      → IsAt p t w
      → IsAt p (advance n t) (w ++ piece space n t) × ((advance n t).bytes_sent ≡ t.bytes_sent + n)
  IsAt-advance t w space n h at =
      let e = at.same in
      let le : n ≤ length p - t.bytes_sent = ground (arith, ap length e) in
      let sum : u32 (t.bytes_sent + n) ≡ t.bytes_sent + n = omega (arith, at.within) in
      (
        record {
          same = at.same;
          written =
              rw (sum, at.written, e)
                (ap (λ l. take t.bytes_sent p ++ l)
                    (take-take n _ (drop t.bytes_sent p) (rw (← e) h))
                  ∙ take_more t.bytes_sent n p);
          within = omega (arith, at.within);
        },
        sum,
      )

accepted_at :
    (c : Chunk) (cs : List Chunk) (t : PendingTransfer) (n : ℕ)
    → c.result ≡ some n
    → Accepts (c ∷ cs) t
    → (n ≤ to_send t c.space) × Accepts cs (advance n t)
accepted_at c cs t n e h = subst (λ (o : Option ℕ). Accepts (record c { result = o } ∷ cs) t) e h

-- What the loop leaves: no less written than before, and something left where `Send` failed.
pub record Looped (p : Bytes) (t : PendingTransfer) (r : Wrote) : Type 0 where
  pub at : IsAt p r.transfer r.written
  pub grows : t.bytes_sent ≤ r.transfer.bytes_sent
  pub unfinished : r.failed ≡ true → r.transfer.bytes_sent < length p

-- The buffer has room, and `Send` takes something.
abbrev pub Moves : List Chunk → Type 0
Moves [] = ⊥
Moves (c ∷ cs) = (0 < c.space) × (n : ℕ) × (c.result ≡ some n) × (0 < n)

module _ (p : Bytes) (small : length p < 2 ^ 32) where
  stays :
      (t : PendingTransfer) (w : Bytes)
      → IsAt p t w
      → Looped p t (record { transfer = t; written = w; failed = false })
  stays t w at = record { at = at; grows = omega arith; unfinished = λ e. cc }

  fails :
      (t : PendingTransfer) (w : Bytes)
      → ltb t.bytes_sent (length t.payload) ≡ true
      → IsAt p t w
      → Looped p t (record { transfer = t; written = w; failed = true })
  fails t w e at = record {
    at = at;
    grows = omega arith;
    unfinished = λ _. ground (arith, ap length at.same);
  }

  goes_on :
      (t : PendingTransfer) (w : Bytes) (c : Chunk) (n : ℕ) (r : Wrote)
      → n ≤ to_send t c.space
      → IsAt p t w
      → Looped p (advance n t) r
      → Looped p t r
  goes_on t w c n r h at l =
      let (_, sum) = IsAt-advance p small t w c.space n h at in
      record { at = l.at; grows = omega (arith, l.grows); unfinished = l.unfinished }

  pub write_loop-Looped :
      (cs : List Chunk) (t : PendingTransfer) (w : Bytes)
      → Accepts cs t
      → IsAt p t w
      → Looped p t (write_loop cs t w)
  unfolding write_loop
  write_loop-Looped [] t w h at = stays t w at
  write_loop-Looped (c ∷ cs) t w h at = elim (Bool-cases (ltb t.bytes_sent (length t.payload))) [
    | inr full ↦ rw (full, write_loop) (stays t w at)
    | inl left ↦ elim (Bool-cases (ltb 0 c.space)) [
      | inr none_free ↦ rw (left, none_free, write_loop) (stays t w at)
      | inl free ↦ elim (Option-cases c.result) [
        | inl e ↦ rw (left, free, e, write_loop) (fails t w left at)
        | inr (n, e) ↦
            let (few, later) = accepted_at c cs t n e h in
            let (at', sum) = IsAt-advance p small t w c.space n few at in
            rw (left, free, e, write_loop)
              (goes_on t w c n _ few at
                (write_loop-Looped cs (advance n t) (w ++ piece c.space n t) later at'))
      ]
    ]
  ]

  pub write_loop-Moves :
      (cs : List Chunk) (t : PendingTransfer) (w : Bytes)
      → Accepts cs t
      → IsAt p t w
      → t.bytes_sent < length p
      → Moves cs
      → t.bytes_sent < (write_loop cs t w).transfer.bytes_sent
  unfolding write_loop
  write_loop-Moves [] t w h at lt m = absurd m
  write_loop-Moves (c ∷ cs) t w h at lt (free, n, e, positive) =
      let (few, later) = accepted_at c cs t n e h in
      let (at', sum) = IsAt-advance p small t w c.space n few at in
      let l = write_loop-Looped cs (advance n t) (w ++ piece c.space n t) later at' in
      let left : ltb t.bytes_sent (length t.payload) ≡ true = ground (arith, ap length at.same) in
      let free' : ltb 0 c.space ≡ true = ground arith in
      rw (left, free', e, write_loop) (omega (arith, l.grows))
