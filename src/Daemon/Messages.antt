-- ===== src/Daemon/Messages.antt =====
-- SEND, FETCH, POST and RECEIVE: the four handlers of cpp/src/nsb_daemon.cc that move messages.
use nsb_ci.Prelude.{
  ℤ, negsuc, int_eq, Bytes, true, false, List, [], ◌∷◌, ◌++◌, none, some, is_empty, not, is_some,
  str_eq, if◌then◌else◌,
}
use nsb_ci.Message.{
  Nsbm, Operation, Originator, OpCode, SystemMode, SimulatorMode, Config, MessageEntry, blank_entry,
  get_manifest, get_metadata, set_op, set_manifest, set_metadata, entry_exists, is_message,
}
use nsb_ci.Store.Lookup.{find, first}
use nsb_ci.Store.Buffer.{Taken, take_match, pop_front}
use nsb_ci.Daemon.{
  Daemon, Os, Outcome, ok, thrown, undefined, ◌>>=◌, Reply, no_response, ClientDetails,
  msg_get_payload_obj, msg_set_payload_obj, forward_to, fd_settable,
}

-- `MessageEntry(src_id, dest_id, payload_obj, payload_size)` of an incoming message.
unfoldable pub entry_of : Config → Nsbm → MessageEntry
unfolding msg_get_payload_obj
entry_of cfg m =
    let meta = get_metadata m in
    record {
      source = meta.src_id;
      destination = meta.dest_id;
      payload_obj = msg_get_payload_obj cfg m;
      payload_size = meta.payload_size;
    }

-- The simulator client that a SEND is forwarded to. `begin()->second` of an empty map is undefined,
-- and `at` throws where the source has no simulator client; `none` is the branch that gives up.
unfoldable pub target_sim : Daemon → Bytes → Outcome (List ClientDetails)
target_sim d src = elim d.cfg.simulator_mode [
  | SimulatorMode.system_wide ↦ elim (first d.sim_client_lookup) [
    | none ↦ undefined
    | some c ↦ ok (c ∷ [])
  ]
  | SimulatorMode.per_node ↦ elim (find src d.sim_client_lookup) [
    | none ↦ thrown
    | some c ↦ ok (c ∷ [])
  ]
  | SimulatorMode.other n ↦ ok []
]

-- `outgoing_msg` after `Clear`, `MergeFrom(*incoming_msg)` and `set_op(FORWARD)`.
abbrev pub forwarded : Nsbm → Nsbm
forwarded m = set_op Operation.forward m

-- Forward over the RECV channel of the client that was found, if one was.
unfoldable pub forward_to_sim : Os → Daemon → Nsbm → List ClientDetails → Outcome (Daemon × Reply)
forward_to_sim os d m [] = ok (d, no_response (forwarded m))
forward_to_sim os d m (c ∷ cs) =
    if fd_settable c.ch_recv_fd
    then ok (
      d,
      record {
        outgoing = forwarded m;
        response_required = false;
        effects = forward_to os c.ch_recv_fd (forwarded m);
      },
    )
    else undefined

unfoldable pub handle_send : Os → Daemon → Nsbm → Nsbm → Outcome (Daemon × Reply)
unfolding entry_of target_sim forward_to_sim
handle_send os d m out = elim d.cfg.system_mode [
  | SystemMode.pull ↦
      ok (record d { tx_buffer = d.tx_buffer ++ entry_of d.cfg m ∷ [] }, no_response out)
  | SystemMode.push ↦ do target ← target_sim d (get_metadata m).src_id; forward_to_sim os d m target
  | SystemMode.other n ↦ ok (d, no_response out)
]

-- The answer to FETCH and RECEIVE: the entry, if it is populated.
unfoldable pub entry_response : Config → Operation → MessageEntry → Nsbm → Reply
unfolding entry_exists msg_set_payload_obj
entry_response cfg op e out = record {
  outgoing =
      if entry_exists e
      then msg_set_payload_obj cfg e.payload_obj (
          set_metadata e.source e.destination e.payload_size
            (set_manifest op Originator.daemon OpCode.message out))
      else set_manifest op Originator.daemon OpCode.no_message out;
  response_required = true;
  effects = [];
}

-- The entry that FETCH takes: the oldest of the given source, or the oldest of all where the source
-- is empty; none where the message has no metadata.
unfoldable pub fetch_entry : Nsbm → List MessageEntry → Taken
unfolding take_match pop_front
fetch_entry m buffer =
    let src = (get_metadata m).src_id in
    if is_some m.metadata
    then (if not (is_empty src)
        then take_match (λ e. str_eq e.source src) buffer
        else pop_front buffer)
    else record { entry = blank_entry; rest = buffer }

unfoldable pub handle_fetch : Daemon → Nsbm → Nsbm → Daemon × Reply
unfolding fetch_entry entry_response
handle_fetch d m out =
    let t = fetch_entry m d.tx_buffer in
    (record d { tx_buffer = t.rest }, entry_response d.cfg Operation.fetch t.entry out)

-- `app_client_lookup[dest_id].ch_RECV_fd`, or -1 where the destination is not a key.
unfoldable pub target_fd : Daemon → Bytes → ℤ
target_fd d dest = elim (find dest d.app_client_lookup) [ none ↦ negsuc 0 | some c ↦ c.ch_recv_fd ]

unfoldable pub handle_post : Os → Daemon → Nsbm → Nsbm → Outcome (Daemon × Reply)
unfolding entry_of target_fd
handle_post os d m out = elim d.cfg.system_mode [
  | SystemMode.pull ↦
      if is_message (get_manifest m).code
      then ok (record d { rx_buffer = d.rx_buffer ++ entry_of d.cfg m ∷ [] }, no_response out)
      else ok (d, no_response out)
  | SystemMode.push ↦
      let fd = target_fd d (get_metadata m).dest_id in
      if int_eq fd (negsuc 0)
      then ok (d, no_response (forwarded m))
      else if fd_settable fd
      then ok (
        d,
        record {
          outgoing = forwarded m;
          response_required = false;
          effects = forward_to os fd (forwarded m);
        },
      )
      else undefined
  | SystemMode.other n ↦ ok (d, no_response out)
]

-- The entry that RECEIVE takes: as for FETCH, by destination.
unfoldable pub receive_entry : Nsbm → List MessageEntry → Taken
unfolding take_match pop_front
receive_entry m buffer =
    let dest = (get_metadata m).dest_id in
    if is_some m.metadata
    then (if not (is_empty dest)
        then take_match (λ e. str_eq e.destination dest) buffer
        else pop_front buffer)
    else record { entry = blank_entry; rest = buffer }

unfoldable pub handle_receive : Daemon → Nsbm → Nsbm → Daemon × Reply
unfolding receive_entry entry_response
handle_receive d m out =
    let t = receive_entry m d.rx_buffer in
    (record d { rx_buffer = t.rest }, entry_response d.cfg Operation.receive t.entry out)
