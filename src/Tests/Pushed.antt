-- ===== src/Tests/Pushed.antt =====
-- PUSH mode at concrete data.
use nsb_ci.Prelude.{ℕ, pos, Bytes, bytes, List, [], ◌∷◌, ◌≡◌, refl, arith, inl, str_eq}
use nsb_ci.Message.{Nsbm, Originator, Operation, get_manifest}
use nsb_ci.Store.Lookup.{find, first}
use nsb_ci.Daemon.{ClientDetails, Os, ok, fd_settable}
use nsb_ci.Daemon.Messages.{forwarded}
use nsb_ci.Client.{Client}
use nsb_ci.Client.Relay.{carried}
use nsb_ci.Client.Outward.{send_message}
use nsb_ci.Client.Homeward.{post_message}
use nsb_ci.Client.Pushed.{IsPush, PushWires, push_journey, push_journey_lem}
use nsb_ci.Tests.Codec.{codec_of, encoded}
use nsb_ci.Tests.Data.{alice, bob, hello, pushing, client_at}
use nsb_ci.Tests.Client.{client_named, no_redis}

abbrev pushed : Bytes → Originator → Client
pushed id og = record (client_named id og) { cfg = pushing.cfg }

abbrev to_sim : ClientDetails
to_sim = client_at (bytes "sim") (pos 9)

abbrev to_bob : ClientDetails
to_bob = client_at bob (pos 8)

abbrev messages : List Nsbm
messages =
    send_message alice bob hello
    ∷ forwarded (send_message alice bob hello)
    ∷ post_message alice bob hello
    ∷ forwarded (post_message alice bob hello)
    ∷ []

abbrev number : Operation → Originator → ℕ
number Operation.send og = 0
number Operation.post og = 2
number _ Originator.app_client = 1
number _ og = 3

abbrev number_of : Nsbm → ℕ
number_of m = number (get_manifest m).op (get_manifest m).og

abbrev codec : Os
codec = codec_of number_of messages

wires : PushWires codec no_redis pushing to_sim to_bob alice bob hello
unfolding fd_settable
wires = record {
  send_wire = 0 ∷ [];
  forwarded_wire = 1 ∷ [];
  post_wire = 2 ∷ [];
  received_wire = 3 ∷ [];
  send_passes = record {
    comes = encoded number_of messages _ _ refl refl;
    goes = encoded number_of messages _ _ refl refl;
    delivers = record { ready = refl; is_set = refl; memory = refl; serialized = refl };
    settable = refl;
  };
  post_passes = record {
    comes = encoded number_of messages _ _ refl refl;
    goes = encoded number_of messages _ _ refl refl;
    delivers = record { ready = refl; is_set = refl; memory = refl; serialized = refl };
    settable = refl;
  };
}

pushing-IsPush : IsPush pushing.cfg
pushing-IsPush = record { push = refl; no_db = refl }

push_journey_lem_example :
    push_journey codec no_redis
      (pos 0)
      (pos 1)
      hello
      (pushed alice Originator.app_client)
      (pushed (bytes "sim") Originator.sim_client)
      (pushed bob Originator.app_client)
      (pos 5)
      (pos 7)
      to_sim.ch_recv_fd
      to_bob.ch_recv_fd
      tt
      pushing
    ≡ ok (tt, pushing, carried alice bob hello)
unfolding find str_eq first
push_journey_lem_example =
    push_journey_lem codec no_redis (pos 0) (pos 1) hello (pushed alice Originator.app_client)
      (pushed (bytes "sim") Originator.sim_client) (pushed bob Originator.app_client) (pos 5)
      (pos 7) to_sim to_bob tt pushing refl refl pushing-IsPush pushing-IsPush pushing-IsPush refl
      (inl (refl, refl)) refl (omega arith) wires
