-- ===== src/Client/Relay.antt =====
-- Messages on their way between the clients of cpp/src/nsb_client.cc and the daemon of
-- cpp/src/nsb_daemon.cc, over channels that lose nothing.
use nsb_ci.Prelude.{
  pos, length, to_int-small, ◌<◌, ◌^◌, ℤ, int_eq, int_eq_iff, Bytes, true, false, List, [], ◌∷◌,
  ◌++◌, append-nil, ap, some, ◌≡◌, refl, ◌≢◌, arith, if◌then◌else◌,
}
use nsb_ci.Daemon.Messages.{entry_of}
use nsb_ci.Client.App.{outgoing}
use nsb_ci.Message.{
  Config, SystemMode, Operation, Originator, MessageEntry, set_payload, Nsbm, get_manifest,
}
use nsb_ci.Daemon.{Daemon, Os, Outcome, ok, ◌>>=◌, Effect, sent, closed, Reply, transmit}
use nsb_ci.Daemon.Dispatch.{handle_message, dispatch_on, respond, response_template}
use nsb_ci.Client.{Sent}

-- The codec carries a message, as the text `wire`, and there is memory for it.
pub record Encodes (os : Os) (m : Nsbm) (wire : Bytes) : Type 0 where
  pub serialized : os.serialize m ≡ some wire
  pub parsed : os.parse wire ≡ some m
  pub not_empty : wire ≢ []
  pub memory : os.malloc (os.byte_size_long m) ≡ true

-- PULL mode, without a database.
pub record IsPlain (cfg : Config) : Type 0 where
  pub pull : cfg.system_mode ≡ SystemMode.pull
  pub no_db : cfg.use_db ≡ false

-- What a client reads from a channel of which the daemon's end is `fd`.
abbrev pub arrived : ℤ → List Effect → Bytes
arrived fd [] = []
arrived fd (sent to wire ∷ es) = if int_eq fd to then wire ++ arrived fd es else arrived fd es
arrived fd (closed x ∷ es) = arrived fd es

-- The daemon reads, from `fd`, each message that a client has sent.
unfoldable pub hand_over : Os → ℤ → List Sent → Daemon → Outcome (Daemon × List Effect)
hand_over os fd [] d = ok (d, [])
hand_over os fd (x ∷ xs) d = do
  (d', effects) ← handle_message os fd d x.wire
  (d'', later) ← hand_over os fd xs d'
  ok (d'', effects ++ later)

pub hand_over-one :
    (os : Os) (fd : ℤ) (x : Sent) (d d' : Daemon) (effects : List Effect)
    → handle_message os fd d x.wire ≡ ok (d', effects)
    → hand_over os fd (x ∷ []) d ≡ ok (d', effects)
unfolding hand_over
hand_over-one os fd x d d' effects h = rw (h, append-nil effects) refl

pub arrived-one : (fd : ℤ) (wire : Bytes) → arrived fd (sent fd wire ∷ []) ≡ wire
arrived-one fd wire = ground (arith, int_eq_iff fd fd, append-nil wire)

-- What the daemon does with a message, once it is known what its handler does.
pub handle_message-handled :
    (os : Os) (fd : ℤ) (d d' : Daemon) (m : Nsbm) (wire : Bytes) (answer : Reply)
    → os.parse wire ≡ some m
    → dispatch_on (get_manifest m).op os d m response_template ≡ ok (d', answer)
    → handle_message os fd d wire
      ≡ ok (
        d',
        answer.effects ++ (if answer.response_required then transmit os fd answer.outgoing else []),
      )
unfolding handle_message respond
handle_message-handled os fd d d' m wire answer parsed handled =
    rw (parsed, handle_message) (ap (λ (o : Outcome (Daemon × Reply)). o >>= respond os fd) handled)

pub transmit-Encodes :
    (os : Os) (fd : ℤ) (m : Nsbm) (wire : Bytes)
    → Encodes os m wire
    → transmit os fd m ≡ sent fd wire ∷ []
unfolding transmit
transmit-Encodes os fd m wire h = ground (arith, h.serialized, h.memory)

-- The entry that a payload travels in, and the message of SEND and of POST that carries it.
abbrev pub carried : Bytes → Bytes → Bytes → MessageEntry
carried src dest payload = record {
  source = src;
  destination = dest;
  payload_obj = payload;
  payload_size = pos (length payload);
}

abbrev pub carrying : Operation → Originator → Bytes → Bytes → Bytes → Nsbm
carrying op og src dest payload = set_payload payload (outgoing op og src dest payload)

pub entry_of-carrying :
    (d : Daemon) (op : Operation) (og : Originator) (src dest payload : Bytes)
    → d.cfg.use_db ≡ false
    → length payload < 2 ^ 31
    → entry_of d.cfg (carrying op og src dest payload) ≡ carried src dest payload
unfolding entry_of
entry_of-carrying d op og src dest payload plain short =
    ground (arith, to_int-small (length payload) short)
