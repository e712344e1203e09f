-- ===== src/Daemon/Received.antt =====
-- RECEIVE of cpp/src/nsb_daemon.cc, and the POST that it waits for, in PULL mode.
use nsb_ci.Prelude.{true, false, List, [], ◌∷◌, ◌++◌, ◌≡◌, ◌≢◌, ap, ◌∙◌, arith, All, str_eq_iff}
use nsb_ci.Message.{
  Nsbm, Operation, SystemMode, MessageEntry, get_metadata, get_manifest, is_message, entry_exists,
}
use nsb_ci.Store.Buffer.{take_match, take_match_at}
use nsb_ci.Daemon.{Daemon, Os, ok, Reply, no_response}
use nsb_ci.Daemon.Messages.{entry_of, receive_entry, handle_post, handle_receive}
use nsb_ci.Daemon.Queues.{to_destination, receive_addressed}
use nsb_ci.Daemon.Answers.{
  empty_response, found_response, receive_with, response_empty, response_found,
}

module _ (d : Daemon) (m out : Nsbm) (before after : List MessageEntry) (e : MessageEntry) where
  receive_entry_at :
      (get_metadata m).dest_id ≢ []
      → d.rx_buffer ≡ before ++ e ∷ after
      → All (λ x. to_destination (get_metadata m).dest_id x ≡ false) before
      → e.destination ≡ (get_metadata m).dest_id
      → receive_entry m d.rx_buffer ≡ record { entry = e; rest = before ++ after }
  receive_entry_at named was first_one mine =
      receive_addressed m d.rx_buffer named
      ∙ ap (take_match (to_destination (get_metadata m).dest_id)) was
      ∙ take_match_at _ before after e first_one ((str_eq_iff _ _).1 mine)

  -- RECEIVE for a destination answers with the oldest entry of that destination, where it is populated, and
  -- takes that entry and no other from the buffer.
  pub handle_receive-oldest :
      (get_metadata m).dest_id ≢ []
      → d.rx_buffer ≡ before ++ e ∷ after
      → All (λ x. to_destination (get_metadata m).dest_id x ≡ false) before
      → e.destination ≡ (get_metadata m).dest_id
      → entry_exists e ≡ true
      → handle_receive d m out
        ≡ (record d { rx_buffer = before ++ after }, found_response d.cfg Operation.receive e out)
  handle_receive-oldest named was first_one mine exists =
      receive_with d m out _ (receive_entry_at named was first_one mine)
      ∙ ap (λ (r : Reply). (record d { rx_buffer = before ++ after }, r))
          (response_found d.cfg Operation.receive e out exists)

  -- Where the oldest entry of the destination lacks a source, a destination or a payload, RECEIVE takes it
  -- from the buffer and answers that there is no message: the entry is lost.
  pub handle_receive-loses :
      (get_metadata m).dest_id ≢ []
      → d.rx_buffer ≡ before ++ e ∷ after
      → All (λ x. to_destination (get_metadata m).dest_id x ≡ false) before
      → e.destination ≡ (get_metadata m).dest_id
      → entry_exists e ≡ false
      → handle_receive d m out
        ≡ (record d { rx_buffer = before ++ after }, empty_response Operation.receive out)
  handle_receive-loses named was first_one mine missing =
      receive_with d m out _ (receive_entry_at named was first_one mine)
      ∙ ap (λ (r : Reply). (record d { rx_buffer = before ++ after }, r))
          (response_empty d.cfg Operation.receive e out missing)

-- A populated entry names its destination.
pub destination_populated : (e : MessageEntry) → entry_exists e ≡ true → e.destination ≢ []
unfolding entry_exists
destination_populated e h = ground arith

-- In PULL mode a POST whose code is MESSAGE puts its entry at the end of the buffer.
pub post_pull :
    (os : Os) (d : Daemon) (m out : Nsbm)
    → d.cfg.system_mode ≡ SystemMode.pull
    → is_message (get_manifest m).code ≡ true
    → handle_post os d m out
      ≡ ok (record d { rx_buffer = d.rx_buffer ++ entry_of d.cfg m ∷ [] }, no_response out)
unfolding handle_post
post_pull os d m out pull yes_message = ground arith
