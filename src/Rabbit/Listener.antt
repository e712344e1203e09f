-- ===== src/Rabbit/Listener.antt =====
-- The listener thread of `RabbitMQInterface`, and `listen` of `NSBAppClientRMQ` and `NSBSimClientRMQ`. A
-- callback is what it makes of its owner's state, whether it returns or raises: the loop catches what it
-- raises, and logs it.
use nsb_ci.Prelude.{Bytes, Bool, true, false, List, [], ◌∷◌, none, some, if◌then◌else◌}
use nsb_ci.Message.{get_manifest, is_message}
use nsb_ci.Daemon.{Os, Outcome, ok, thrown, ◌>>=◌}
use nsb_ci.Rabbit.{Amqp, Interface, ChannelKind, queue_name}
use nsb_ci.Rabbit.Client.{ClientRmq, EntryRmq, read_entry}

-- `async_listen`, which starts the loop on a thread
unfoldable pub async_listen : Interface → Outcome Interface
async_listen i =
    if i.listening
    then thrown
    else if i.connected
    then ok (record i { listening = true })
    else thrown

-- `stop_listen`: the loop ends at its next turn, and the thread is joined.
unfoldable pub stop_listen : Interface → Interface
stop_listen i = if i.listening then record i { listening = false } else i

module _ {B E : Type 0} (amqp : Amqp B) (callback : Bytes → E → E) where
  -- A turn of `listen_loop`.
  unfoldable pub listen_turn : Bytes → B × E → B × E
  listen_turn q s =
      let (env, b') = amqp.consume q s.0 in
      elim env [ none ↦ (b', s.1) | some body ↦ (b', callback body s.1) ]

  -- The turns at which `listening_` is still set, each after what the others did at the broker.
  unfoldable pub listen_turns : List (B → B) → Bytes → B × E → B × E
  listen_turns [] q s = s
  listen_turns (others ∷ turns) q s = listen_turns turns q (listen_turn q (others s.0, s.1))

  -- `listen_loop`: a consumer for the turns, which is cancelled after them.
  unfoldable pub listen_loop : List (B → B) → Bytes → B × E → B × E
  listen_loop turns q s =
      let s' = listen_turns turns q (amqp.basic_consume q s.0, s.1) in
      (amqp.basic_cancel q s'.0, s'.1)

  -- The thread of a channel.
  unfoldable pub listen_on : List (B → B) → Interface → ChannelKind → B × E → B × E
  unfolding queue_name
  listen_on turns i ch s = listen_loop turns (queue_name i ch) s

abbrev pub blank_entry_rmq : EntryRmq
blank_entry_rmq = record { src_id = []; dest_id = []; payload = [] }

-- The callback that `listen` makes of the user's.
unfoldable pub on_wire {ℓ} : {E : Type ℓ} → Os → (EntryRmq → E → E) → Bytes → E → E
unfolding read_entry
on_wire os user wire e = elim (os.parse wire) [
  | none ↦ e
  | some m ↦ if is_message (get_manifest m).code then user (read_entry m blank_entry_rmq) e else e
]

-- `listen`
unfoldable pub listen_rmq : ClientRmq → Outcome ClientRmq
listen_rmq c = do comms ← async_listen c.comms; ok (record c { comms = comms })

-- `stop_listen` and `is_listening`
abbrev pub stop_listen_rmq : ClientRmq → ClientRmq
stop_listen_rmq c = record c { comms = stop_listen c.comms }

abbrev pub is_listening_rmq : ClientRmq → Bool
is_listening_rmq c = c.comms.listening
