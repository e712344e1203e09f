-- ===== src/Socket/Sending.antt =====
-- What `sendMessage` of cpp/src/nsb.cc delivers, and when it returns.
use nsb_ci.Prelude.{
  ◌≢◌, if_true, if_false, ℕ, ℤ, pos, negsuc, ◌+◌, ◌≤◌, ◌<◌, ◌^◌, Bytes, ltb, length, take, drop,
  take-drop, drop-drop, drop_all, to_int-small, List, [], ◌∷◌, ◌++◌, Option, none, some, ◌≡◌, refl,
  arith, append-nil, append_assoc, ap, ◌∙◌, sym, All, Bool-cases, inl, inr, true, false, subst,
}
use nsb_ci.Socket.Transfer.{SendResult, accepted, again, failure, Transfer, send_loop, send_message}

-- What is delivered from byte `sent` on: a beginning of what is left, all of it where the call
-- returned 0.
pub record Delivers (left : Bytes) (t : Transfer) : Type 0 where
  pub later : Bytes
  pub splits : left ≡ t.delivered ++ later
  pub whole : t.returned ≡ some (pos 0) → later ≡ []

finished :
    (message : Bytes) (sent : ℕ)
    → ltb sent (length message) ≡ false
    → Delivers (drop sent message) (record { delivered = []; returned = some (pos 0) })
finished message sent h = record {
  later = drop sent message;
  splits = refl;
  whole = λ e. drop_all sent message (ground arith);
}

nothing_yet :
    (left : Bytes) (r : Option ℤ)
    → r ≢ some (pos 0)
    → Delivers left (record { delivered = []; returned = r })
nothing_yet left r ne = record { later = left; splits = refl; whole = λ e. absurd (ne e) }

after_accepted :
    (message : Bytes) (sent n : ℕ) (t : Transfer)
    → Delivers (drop (sent + n) message) t
    → Delivers
        (drop sent message)
        (record t { delivered = take n (drop sent message) ++ t.delivered })
after_accepted message sent n t h = record {
  later = h.later;
  splits =
      sym (take-drop n (drop sent message))
      ∙ ap (λ l. take n (drop sent message) ++ l) (drop-drop sent n message ∙ h.splits)
      ∙ sym (append_assoc (take n (drop sent message)) t.delivered h.later);
  whole = h.whole;
}

-- The loop is over as soon as everything is sent.
send_loop_over :
    (rs : List SendResult) (message : Bytes) (sent size : ℕ)
    → ltb sent size ≡ false
    → send_loop rs message sent size ≡ record { delivered = []; returned = some (pos 0) }
unfolding send_loop
send_loop_over [] message sent size h = ground arith
send_loop_over (accepted n ∷ rs) message sent size h = if_false _ _ _ h
send_loop_over (again ∷ rs) message sent size h = if_false _ _ _ h
send_loop_over (failure ∷ rs) message sent size h = ground arith

-- Before that, a call that accepts bytes, and one that accepts none.
send_loop_accepted :
    (n : ℕ) (rs : List SendResult) (message : Bytes) (sent size : ℕ)
    → ltb sent size ≡ true
    → let rest = send_loop rs message (sent + n) size in
      send_loop (accepted n ∷ rs) message sent size
      ≡ record rest { delivered = take n (drop sent message) ++ rest.delivered }
unfolding send_loop
send_loop_accepted n rs message sent size h = if_true _ _ _ h

send_loop_again :
    (rs : List SendResult) (message : Bytes) (sent size : ℕ)
    → ltb sent size ≡ true
    → send_loop (again ∷ rs) message sent size ≡ send_loop rs message sent size
unfolding send_loop
send_loop_again rs message sent size h = if_true _ _ _ h

send_loop_stops :
    (message : Bytes) (sent size : ℕ)
    → ltb sent size ≡ true
    → (send_loop [] message sent size ≡ record { delivered = []; returned = none })
      × ((rs : List SendResult)
          → send_loop (failure ∷ rs) message sent size
            ≡ record { delivered = []; returned = some (negsuc 0) })
unfolding send_loop
send_loop_stops message sent size h = (ground arith, λ rs. ground arith)

over-Delivers :
    (rs : List SendResult) (message : Bytes) (sent : ℕ)
    → ltb sent (length message) ≡ false
    → Delivers (drop sent message) (send_loop rs message sent (length message))
over-Delivers rs message sent over =
    subst (Delivers (drop sent message))
      (sym (send_loop_over rs message sent (length message) over)) (finished message sent over)

send_loop-Delivers :
    (rs : List SendResult) (message : Bytes) (sent : ℕ)
    → Delivers (drop sent message) (send_loop rs message sent (length message))
send_loop-Delivers [] message sent = elim (Bool-cases (ltb sent (length message))) [
  | inr over ↦ over-Delivers [] message sent over
  | inl going ↦
      subst (Delivers (drop sent message)) (sym (send_loop_stops message sent _ going).0)
        (nothing_yet _ none (λ e. cc))
]
send_loop-Delivers (failure ∷ rs) message sent = elim (Bool-cases (ltb sent (length message))) [
  | inr over ↦ over-Delivers (failure ∷ rs) message sent over
  | inl going ↦
      subst (Delivers (drop sent message)) (sym ((send_loop_stops message sent _ going).1 rs))
        (nothing_yet _ _ (λ e. cc))
]
send_loop-Delivers (again ∷ rs) message sent = elim (Bool-cases (ltb sent (length message))) [
  | inr over ↦ over-Delivers (again ∷ rs) message sent over
  | inl going ↦
      subst (Delivers (drop sent message)) (sym (send_loop_again rs message sent _ going))
        (send_loop-Delivers rs message sent)
]
send_loop-Delivers (accepted n ∷ rs) message sent = elim (Bool-cases (ltb sent (length message))) [
  | inr over ↦ over-Delivers (accepted n ∷ rs) message sent over
  | inl going ↦
      subst (Delivers (drop sent message)) (sym (send_loop_accepted n rs message sent _ going))
        (after_accepted message sent n _ (send_loop-Delivers rs message (sent + n)))
]

-- Whatever the calls of `send` return, what has reached the system is a beginning of the message, and
-- all of it where `sendMessage` has returned 0, for a message whose length fits an int.
pub send_message-Delivers :
    (rs : List SendResult) (message : Bytes)
    → length message < 2 ^ 31
    → Delivers message (send_message rs message)
unfolding send_message
send_message-Delivers rs message short =
    rw (to_int-small (length message) short, send_message) (send_loop-Delivers rs message 0)

-- The number of bytes that a script accepts, and scripts in which no call fails.
abbrev pub total : List SendResult → ℕ
total [] = 0
total (accepted n ∷ rs) = n + total rs
total (_ ∷ rs) = total rs

abbrev pub NeverFails : List SendResult → Type 0
NeverFails = All (λ r. r ≢ failure)

send_loop-returns :
    (rs : List SendResult) (message : Bytes) (sent size : ℕ)
    → NeverFails rs
    → size ≤ sent + total rs
    → (send_loop rs message sent size).returned ≡ some (pos 0)
unfolding send_loop
send_loop-returns [] message sent size ok enough = ground arith
send_loop-returns (accepted n ∷ rs) message sent size ok enough =
    ground (arith, send_loop-returns rs message (sent + n) size ok.1 (omega arith))
send_loop-returns (again ∷ rs) message sent size ok enough =
    ground (arith, send_loop-returns rs message sent size ok.1 enough)
send_loop-returns (failure ∷ rs) message sent size ok enough = absurd (ok.0 refl)

transfer_eq :
    (t : Transfer) (message : Bytes)
    → t.delivered ≡ message
    → t.returned ≡ some (pos 0)
    → t ≡ record { delivered = message; returned = some (pos 0) }
transfer_eq t message e e' = cc

-- `sendMessage` returns 0, with the whole message delivered, as soon as the calls of `send` have
-- accepted as many bytes as it has, if none of them fails with another error than EAGAIN or EWOULDBLOCK
-- and the length fits an int.
pub send_message-returns :
    (rs : List SendResult) (message : Bytes)
    → length message < 2 ^ 31
    → NeverFails rs
    → length message ≤ total rs
    → send_message rs message ≡ record { delivered = message; returned = some (pos 0) }
unfolding send_message
send_message-returns rs message short ok enough =
    let d = send_message-Delivers rs message short in
    let e : (send_message rs message).returned ≡ some (pos 0) =
      rw (to_int-small (length message) short, send_message)
        (send_loop-returns rs message 0 (length message) ok (omega arith)) in
    transfer_eq (send_message rs message) message
      (sym (append-nil (send_message rs message).delivered)
        ∙ ap (λ l. (send_message rs message).delivered ++ l) (sym (d.whole e))
        ∙ sym d.splits)
      e
