-- ===== src/Daemon/Answers.antt =====
-- What FETCH and RECEIVE of cpp/src/nsb_daemon.cc answer, and what they leave in the buffer.
use nsb_ci.Prelude.{
  true, false, List, [], ◌∷◌, ◌++◌, ◌≡◌, refl, ◌≢◌, ap, ◌∙◌, arith, All, str_eq_iff,
}
use nsb_ci.Message.{
  Nsbm, Operation, Originator, OpCode, SystemMode, Config, MessageEntry, get_metadata, set_manifest,
  set_metadata, entry_exists,
}
use nsb_ci.Store.Buffer.{Taken, take_match, take_match_at}
use nsb_ci.Daemon.{Daemon, Os, ok, Reply, no_response, msg_set_payload_obj}
use nsb_ci.Daemon.Messages.{
  entry_of, entry_response, fetch_entry, receive_entry, handle_send, handle_fetch, handle_receive,
}
use nsb_ci.Daemon.Queues.{from_source, fetch_addressed}

-- The answer that carries an entry, and the answer that there is none.
abbrev pub found_response : Config → Operation → MessageEntry → Nsbm → Reply
found_response cfg op e out = record {
  outgoing = msg_set_payload_obj cfg e.payload_obj (
      set_metadata e.source e.destination e.payload_size
        (set_manifest op Originator.daemon OpCode.message out));
  response_required = true;
  effects = [];
}

abbrev pub empty_response : Operation → Nsbm → Reply
empty_response op out = record {
  outgoing = set_manifest op Originator.daemon OpCode.no_message out;
  response_required = true;
  effects = [];
}

pub response_found :
    (cfg : Config) (op : Operation) (e : MessageEntry) (out : Nsbm)
    → entry_exists e ≡ true
    → entry_response cfg op e out ≡ found_response cfg op e out
unfolding entry_response
response_found cfg op e out h = rw (h, entry_exists) refl

pub response_empty :
    (cfg : Config) (op : Operation) (e : MessageEntry) (out : Nsbm)
    → entry_exists e ≡ false
    → entry_response cfg op e out ≡ empty_response op out
unfolding entry_response
response_empty cfg op e out h = rw (h, entry_exists) refl

pub fetch_with :
    (d : Daemon) (m out : Nsbm) (t : Taken)
    → fetch_entry m d.tx_buffer ≡ t
    → handle_fetch d m out
      ≡ (record d { tx_buffer = t.rest }, entry_response d.cfg Operation.fetch t.entry out)
unfolding handle_fetch
fetch_with d m out t h =
    ap
      (λ (t : Taken).
        (record d { tx_buffer = t.rest }, entry_response d.cfg Operation.fetch t.entry out))
      h

pub receive_with :
    (d : Daemon) (m out : Nsbm) (t : Taken)
    → receive_entry m d.rx_buffer ≡ t
    → handle_receive d m out
      ≡ (record d { rx_buffer = t.rest }, entry_response d.cfg Operation.receive t.entry out)
unfolding handle_receive
receive_with d m out t h =
    ap
      (λ (t : Taken).
        (record d { rx_buffer = t.rest }, entry_response d.cfg Operation.receive t.entry out))
      h

module _ (d : Daemon) (m out : Nsbm) (before after : List MessageEntry) (e : MessageEntry) where
  fetch_entry_at :
      (get_metadata m).src_id ≢ []
      → d.tx_buffer ≡ before ++ e ∷ after
      → All (λ x. from_source (get_metadata m).src_id x ≡ false) before
      → e.source ≡ (get_metadata m).src_id
      → fetch_entry m d.tx_buffer ≡ record { entry = e; rest = before ++ after }
  fetch_entry_at named was first_one mine =
      fetch_addressed m d.tx_buffer named
      ∙ ap (take_match (from_source (get_metadata m).src_id)) was
      ∙ take_match_at _ before after e first_one ((str_eq_iff _ _).1 mine)

  -- FETCH for a source answers with the oldest entry of that source, where it is populated, and
  -- takes that entry and no other from the buffer.
  pub handle_fetch-oldest :
      (get_metadata m).src_id ≢ []
      → d.tx_buffer ≡ before ++ e ∷ after
      → All (λ x. from_source (get_metadata m).src_id x ≡ false) before
      → e.source ≡ (get_metadata m).src_id
      → entry_exists e ≡ true
      → handle_fetch d m out
        ≡ (record d { tx_buffer = before ++ after }, found_response d.cfg Operation.fetch e out)
  handle_fetch-oldest named was first_one mine exists =
      fetch_with d m out _ (fetch_entry_at named was first_one mine)
      ∙ ap (λ (r : Reply). (record d { tx_buffer = before ++ after }, r))
          (response_found d.cfg Operation.fetch e out exists)

  -- Where the oldest entry of the source lacks a source, a destination or a payload, FETCH takes it
  -- from the buffer and answers that there is no message: the entry is lost.
  pub handle_fetch-loses :
      (get_metadata m).src_id ≢ []
      → d.tx_buffer ≡ before ++ e ∷ after
      → All (λ x. from_source (get_metadata m).src_id x ≡ false) before
      → e.source ≡ (get_metadata m).src_id
      → entry_exists e ≡ false
      → handle_fetch d m out
        ≡ (record d { tx_buffer = before ++ after }, empty_response Operation.fetch out)
  handle_fetch-loses named was first_one mine missing =
      fetch_with d m out _ (fetch_entry_at named was first_one mine)
      ∙ ap (λ (r : Reply). (record d { tx_buffer = before ++ after }, r))
          (response_empty d.cfg Operation.fetch e out missing)

pub send_pull :
    (os : Os) (d : Daemon) (m out : Nsbm)
    → d.cfg.system_mode ≡ SystemMode.pull
    → handle_send os d m out
      ≡ ok (record d { tx_buffer = d.tx_buffer ++ entry_of d.cfg m ∷ [] }, no_response out)
unfolding handle_send
send_pull os d m out pull = ground arith

-- A populated entry names its source.
pub source_populated : (e : MessageEntry) → entry_exists e ≡ true → e.source ≢ []
unfolding entry_exists
source_populated e h = ground arith
