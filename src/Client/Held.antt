-- ===== src/Client/Held.antt =====
-- What the daemon of cpp/src/nsb_daemon.cc does with a POST and with a RECEIVE for the same entry, in PULL mode.
use nsb_ci.Prelude.{
  true, false, ℤ, Bytes, List, [], ◌∷◌, ◌++◌, some, ◌≡◌, refl, append-nil, All, ap, ◌∙◌, sym,
}
use nsb_ci.Message.{
  get_manifest, get_metadata, is_message, Nsbm, Operation, SystemMode, MessageEntry, entry_exists,
}
use nsb_ci.Daemon.{no_response, Daemon, Os, ok, Effect, sent}
use nsb_ci.Daemon.Messages.{entry_of}
use nsb_ci.Daemon.Queues.{to_destination}
use nsb_ci.Daemon.Answers.{found_response}
use nsb_ci.Daemon.Received.{destination_populated, post_pull, handle_receive-oldest}
use nsb_ci.Daemon.Dispatch.{dispatch_on, handle_message, response_template}
use nsb_ci.Client.Relay.{handle_message-handled, transmit-Encodes, Encodes}

module _ (os : Os) (d : Daemon) (e : MessageEntry) where
  -- A POST that carries an entry puts it at the end of the buffer.
  pub daemon_holds :
      (fd : ℤ) (wire : Bytes) (m : Nsbm)
      → d.cfg.system_mode ≡ SystemMode.pull
      → (get_manifest m).op ≡ Operation.post
      → is_message (get_manifest m).code ≡ true
      → entry_of d.cfg m ≡ e
      → os.parse wire ≡ some m
      → handle_message os fd d wire ≡ ok (record d { rx_buffer = d.rx_buffer ++ e ∷ [] }, [])
  unfolding dispatch_on
  daemon_holds fd wire m pull op whole carries parsed =
      handle_message-handled os fd d _ m wire _ parsed (
        ap (λ (o : Operation). dispatch_on o os d m response_template) op
        ∙ post_pull os d m response_template pull whole
        ∙ ap
            (λ (e : MessageEntry).
              ok (record d { rx_buffer = d.rx_buffer ++ e ∷ [] }, no_response response_template))
            carries)

  -- A RECEIVE for its destination takes it out again, where nothing else for that destination waits.
  pub daemon_hands :
      (fd : ℤ) (wire back : Bytes) (m : Nsbm)
      → (get_manifest m).op ≡ Operation.receive
      → (get_metadata m).dest_id ≡ e.destination
      → All (λ x. to_destination e.destination x ≡ false) d.rx_buffer
      → entry_exists e ≡ true
      → os.parse wire ≡ some m
      → Encodes os (found_response d.cfg Operation.receive e response_template).outgoing back
      → handle_message os fd (record d { rx_buffer = d.rx_buffer ++ e ∷ [] }) wire
        ≡ ok (d, sent fd back ∷ [])
  unfolding dispatch_on
  daemon_hands fd wire back m op named others exists parsed h =
      let d' : Daemon = record d { rx_buffer = d.rx_buffer ++ e ∷ [] } in
      let taken =
        handle_receive-oldest d' m response_template d.rx_buffer [] e
          (rw named (destination_populated e exists)) refl (rw named others) (sym named) exists in
      let handled =
        ap (λ (o : Operation). dispatch_on o os d' m response_template) op
        ∙ ap ok (
            taken
            ∙ ap
                (λ (b : List MessageEntry). (
                  record d { rx_buffer = b },
                  found_response d.cfg Operation.receive e response_template,
                ))
                (append-nil d.rx_buffer)) in
      handle_message-handled os fd d' d m wire _ parsed handled
      ∙ ap (λ (effects : List Effect). ok (d, effects)) (transmit-Encodes os fd _ back h)
