-- ===== src/Socket/Transfer.antt =====
-- `sendMessage` and `receiveMessage` of cpp/src/nsb.cc. The calls of `send`, and of `select` with the
-- `recv`s that follow it, are read off a list; where the list ends the source is still in its loop.
use nsb_ci.Prelude.{
  ℕ, ℤ, pos, negsuc, ◌+◌, Bytes, ltb, length, take, drop, to_int, List, [], ◌∷◌, ◌++◌, Option, none,
  some, if◌then◌else◌,
}
use nsb_ci.Daemon.Server.{join}

-- One call of `send`: a number of bytes, EAGAIN or EWOULDBLOCK, or another error.
pub data SendResult : Type 0 where
  accepted : ℕ → SendResult
  again failure : SendResult

-- What reached the system, and what `sendMessage` returned, if it has returned.
pub record Transfer : Type 0 where
  pub delivered : Bytes
  pub returned : Option ℤ

abbrev more : Bytes → Transfer → Transfer
more bs t = record t { delivered = bs ++ t.delivered }

-- The loop, with `totalBytesSent` and `totalSize`.
unfoldable pub send_loop : List SendResult → Bytes → ℕ → ℕ → Transfer
send_loop [] message sent size = record {
  delivered = [];
  returned = if ltb sent size then none else some (pos 0);
}
send_loop (accepted n ∷ rs) message sent size =
    let rest = send_loop rs message (sent + n) size in
    if ltb sent size
    then more (take n (drop sent message)) rest
    else record { delivered = []; returned = some (pos 0) }
send_loop (again ∷ rs) message sent size =
    let rest = send_loop rs message sent size in
    if ltb sent size then rest else record { delivered = []; returned = some (pos 0) }
send_loop (failure ∷ rs) message sent size = record {
  delivered = [];
  returned = if ltb sent size then some (negsuc 0) else some (pos 0);
}

-- `sendMessage`. A size that is negative as an int ends the loop at once.
unfoldable pub send_message : List SendResult → Bytes → Transfer
unfolding send_loop
send_message rs message = elim (to_int (length message)) [
  | pos size ↦ send_loop rs message 0 size
  | negsuc n ↦ record { delivered = []; returned = some (pos 0) }
]

-- One turn of `receiveMessage`: `select` failed, it timed out, or it reported the descriptor, and `recv`
-- then returned these pieces before it returned no more.
pub data Wait : Type 0 where
  select_error timed_out : Wait
  ready : List Bytes → Wait

-- `none` while the loop has not returned.
unfoldable pub receive_message : List Wait → Option Bytes
unfolding join
receive_message [] = none
receive_message (select_error ∷ ws) = some []
receive_message (timed_out ∷ ws) = some []
receive_message (ready [] ∷ ws) = receive_message ws
receive_message (ready (p ∷ ps) ∷ ws) = some (join (p ∷ ps))
