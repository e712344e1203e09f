-- ===== src/Daemon/Server.antt =====
-- The server loop of `NSBDaemon::start_server` in cpp/src/nsb_daemon.cc. A round is one `select` and
-- what it reports; a run is the list of its rounds. `channel_fds.erase(it)` is taken to leave `it` at
-- the next element, as the loop expects; the standard makes `it` invalid there.
use nsb_ci.Prelude.{
  ℤ, Bytes, Bool, true, false, List, [], ◌∷◌, ◌++◌, map, is_positive, is_negative, ◌&&◌,
  if◌then◌else◌,
}
use nsb_ci.Store.Lookup.{emplace}
use nsb_ci.Daemon.{
  Daemon, Os, Effect, closed, Outcome, ok, undefined, ◌>>=◌, channel_key, fd_settable,
}
use nsb_ci.Daemon.Dispatch.{handle_message, is_running}

-- What came of `accept`, if the server's descriptor was set: it failed, the channel could not be made
-- non-blocking, or a client connected from an address and a port.
pub data Accepted : Type 0 where
  no_connection accept_failed : Accepted
  blocking : ℤ → Accepted
  connected : ℤ → Bytes → ℤ → Accepted

pub record Round : Type 0 where
  -- the result of `select`, and whether its error is EINTR, EAGAIN or EWOULDBLOCK
  pub activity : ℤ
  pub benign : Bool
  -- `FD_ISSET` for each channel, and the pieces that `recv` returns until it returns no more
  pub fd_isset : ℤ → Bool
  pub pieces : ℤ → List Bytes
  pub accepted : Accepted

pub record Server : Type 0 where
  pub daemon : Daemon
  pub server_fd : ℤ
  pub channel_fds : List ℤ

-- `message`, after every piece has been inserted at its end.
unfoldable pub join : List Bytes → Bytes
join [] = []
join (p ∷ ps) = p ++ join ps

-- What one channel, and the scan over all of them, leave.
pub record Served : Type 0 where
  pub daemon : Daemon
  pub stays : Bool
  pub effects : List Effect

pub record Scan : Type 0 where
  pub daemon : Daemon
  pub kept : List ℤ
  pub effects : List Effect

abbrev pub stays_with : Daemon × List Effect → Outcome Served
stays_with (d, effects) = ok (record { daemon = d; stays = true; effects = effects })

-- A channel that `select` reports. A message is whatever could be read at once; nothing to read means
-- that the client has gone.
unfoldable pub serve_ready : Os → ℤ → List Bytes → Daemon → Outcome Served
unfolding join
serve_ready os fd [] d = ok (record { daemon = d; stays = false; effects = closed fd ∷ [] })
serve_ready os fd (p ∷ ps) d = handle_message os fd d (join (p ∷ ps)) >>= stays_with

unfoldable pub serve_channel : Os → Round → ℤ → Daemon → Outcome Served
unfolding serve_ready
serve_channel os r fd d =
    if r.fd_isset fd then serve_ready os fd (r.pieces fd) d else stays_with (d, [])

-- The scan over the existing channels.
unfoldable pub serve_channels : Os → Round → List ℤ → Daemon → Outcome Scan
unfolding serve_channel
serve_channels os r [] d = ok (record { daemon = d; kept = []; effects = [] })
serve_channels os r (fd ∷ fds) d = do
  c ← serve_channel os r fd d
  s ← serve_channels os r fds c.daemon
  ok (record {
    daemon = s.daemon;
    kept = if c.stays then fd ∷ s.kept else s.kept;
    effects = c.effects ++ s.effects;
  })

-- A new connection, after the channels.
unfoldable pub accept_channel : Accepted → Server → Server × List Effect
accept_channel (blocking fd) s = (s, closed fd ∷ [])
accept_channel (connected fd ip port) s = (
  record s {
    daemon = record s.daemon { fd_lookup = emplace (channel_key ip port) fd s.daemon.fd_lookup };
    channel_fds = s.channel_fds ++ fd ∷ [];
  },
  [],
)
accept_channel _ s = (s, [])

-- What a round leaves: the server, whether the loop goes on, and the effects.
pub record Turn : Type 0 where
  pub server : Server
  pub goes_on : Bool
  pub effects : List Effect

abbrev pub all_settable : List ℤ → Bool
all_settable [] = true
all_settable (fd ∷ fds) = fd_settable fd && all_settable fds

unfoldable pub after_select : Os → Round → Server → Outcome Turn
unfolding serve_channels accept_channel
after_select os r s = do
  scan ← serve_channels os r s.channel_fds s.daemon
  let (s', effects) =
      accept_channel r.accepted (record s { daemon = scan.daemon; channel_fds = scan.kept })
  ok (record { server = s'; goes_on = true; effects = scan.effects ++ effects })

-- The body of the loop.
unfoldable pub round : Os → Round → Server → Outcome Turn
unfolding after_select
round os r s =
    if all_settable (s.server_fd ∷ s.channel_fds)
    then (if is_negative r.activity
        then ok (record { server = s; goes_on = r.benign; effects = [] })
        else if is_positive r.activity
        then after_select os r s
        else ok (record { server = s; goes_on = true; effects = [] }))
    else undefined

-- After the loop: every channel and the listening socket are closed.
unfoldable pub close_all : Server → List Effect
close_all s = map closed s.channel_fds ++ closed s.server_fd ∷ []

abbrev pub ended : Server → List Effect → Outcome Turn
ended s effects = ok (record { server = s; goes_on = false; effects = effects ++ close_all s })

-- After a round: the loop goes on, or a `break` has left it.
unfoldable pub next_turn : (Server → Outcome Turn) → Turn → Outcome Turn
unfolding close_all
next_turn rest t =
    if t.goes_on
    then (rest t.server >>= λ u. ok (record u { effects = t.effects ++ u.effects }))
    else ended t.server t.effects

-- A run of the loop: `goes_on` is left true where the rounds end before the loop does.
unfoldable pub server_loop : Os → List Round → Server → Outcome Turn
unfolding round next_turn is_running
server_loop os [] s =
    if is_running s.daemon
    then ok (record { server = s; goes_on = true; effects = [] })
    else ended s []
server_loop os (r ∷ rs) s =
    if is_running s.daemon then (round os r s >>= next_turn (server_loop os rs)) else ended s []
