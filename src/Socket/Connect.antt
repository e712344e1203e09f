-- ===== src/Socket/Connect.antt =====
-- `connectToServer` and `closeConnection` of cpp/src/nsb.cc. The attempts that the clock allows for a
-- channel are a list.
use nsb_ci.Prelude.{
  ℤ, pos, negsuc, Bool, true, false, is_negative, int_eq, List, [], ◌∷◌, ◌++◌, if◌then◌else◌,
}
use nsb_ci.Daemon.{Outcome, ok, thrown, ◌>>=◌}
use nsb_ci.Client.{Channel}

-- A call that opens or closes a descriptor, or shuts its writing side down.
pub data Call : Type 0 where
  opened closed shut_down : ℤ → Call

-- One turn of the loop: the results of `socket`, of the three `setsockopt`s and of `connect`.
pub record Attempt : Type 0 where
  pub socket : ℤ
  pub reuse_address : ℤ
  pub no_delay : ℤ
  pub keep_alive : ℤ
  pub connect : ℤ

-- The attempts before the target time, and whether the target time is past after the loop.
pub record Try : Type 0 where
  pub attempts : List Attempt
  pub late : Bool

-- `conns`
abbrev pub Conns : Type 0
Conns = List (Channel × ℤ)

-- How the loop over the attempts is left: with a descriptor, by `return -1`, or by the clock.
pub data Found : Type 0 where
  connected : ℤ → Found
  gave_up ran_out : Found

abbrev pub options_fail : Attempt → Bool
options_fail a =
    if is_negative a.reuse_address
    then true
    else if is_negative a.no_delay
    then true
    else is_negative a.keep_alive

unfoldable pub try_channel : List Attempt → Found × List Call
try_channel [] = (ran_out, [])
try_channel (a ∷ rest) =
    let (found, calls) = try_channel rest in
    if is_negative a.socket
    then (gave_up, [])
    else if options_fail a
    then (gave_up, opened a.socket ∷ closed a.socket ∷ [])
    else if int_eq a.connect (negsuc 0)
    then (found, opened a.socket ∷ closed a.socket ∷ calls)
    else (connected a.socket, opened a.socket ∷ [])

-- What the loop over the channels leaves: the connections, whether it went through, and the calls.
pub record Connecting : Type 0 where
  pub conns : Conns
  pub through : Bool
  pub calls : List Call

abbrev pub with_found : Channel → Found → Conns → Conns
with_found ch (connected fd) conns = conns ++ (ch, fd) ∷ []
with_found ch _ conns = conns

abbrev pub stops : Found → Bool → Bool
stops gave_up late = true
stops _ late = late

unfoldable pub connect_channels : (Channel → Try) → List Channel → Conns → Connecting
unfolding try_channel
connect_channels tries [] conns = record { conns = conns; through = true; calls = [] }
connect_channels tries (ch ∷ chs) conns =
    let (found, calls) = try_channel (tries ch).attempts in
    let conns' = with_found ch found conns in
    let rest = connect_channels tries chs conns' in
    if stops found (tries ch).late
    then record { conns = conns'; through = false; calls = calls }
    else record rest { calls = calls ++ rest.calls }

abbrev pub same_channel : Channel → Channel → Bool
same_channel Channel.ctrl Channel.ctrl = true
same_channel Channel.send Channel.send = true
same_channel Channel.recv Channel.recv = true
same_channel _ _ = false

-- `conns.at(channel)`
unfoldable pub conn_at : Channel → Conns → Outcome ℤ
conn_at ch [] = thrown
conn_at ch ((c, fd) ∷ conns) = if same_channel c ch then ok fd else conn_at ch conns

abbrev pub channels : List Channel
channels = Channel.ctrl ∷ Channel.send ∷ Channel.recv ∷ []

-- The second loop: `fcntl` to get the flags of a descriptor and to set them, -1 where it failed.
unfoldable pub set_non_blocking : (ℤ → ℤ) → (ℤ → ℤ) → Conns → List Channel → Outcome Bool
unfolding conn_at
set_non_blocking get set conns [] = ok true
set_non_blocking get set conns (ch ∷ chs) =
    let rest = set_non_blocking get set conns chs in
    conn_at ch conns >>= λ fd.
    if int_eq (get fd) (negsuc 0)
    then ok false
    else if int_eq (set fd) (negsuc 0)
    then ok false
    else rest

-- `connectToServer`: its result, with the connections and the calls that it made.
unfoldable pub connect_to_server :
    (Channel → Try) → (ℤ → ℤ) → (ℤ → ℤ) → Outcome (ℤ × Conns × List Call)
unfolding connect_channels set_non_blocking
connect_to_server tries get set =
    let c = connect_channels tries channels [] in
    if c.through
    then (do
      fine ← set_non_blocking get set c.conns channels
      ok (if fine then pos 0 else negsuc 0, c.conns, c.calls))
    else ok (negsuc 0, c.conns, c.calls)

unfoldable pub close_connection : Conns → List Channel → Outcome (List Call)
unfolding conn_at
close_connection conns [] = ok []
close_connection conns (ch ∷ chs) = do
  fd ← conn_at ch conns
  rest ← close_connection conns chs
  ok (shut_down fd ∷ closed fd ∷ rest)
