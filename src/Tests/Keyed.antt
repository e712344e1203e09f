-- ===== src/Tests/Keyed.antt =====
-- A payload with a zero byte on its way through a database.
use nsb_ci.Prelude.{
  Bytes, length, pos, bytes, List, [], ◌∷◌, none, some, true, ◌≡◌, refl, arith, str_eq, to_string,
}
use nsb_ci.Message.{Nsbm, Originator, Config, new_config, entry_exists}
use nsb_ci.Daemon.{Daemon, Os, ok, msg_set_payload_obj}
use nsb_ci.Db.{payload_id, Connector, c_str, store, check_out}
use nsb_ci.Client.{Client}
use nsb_ci.Client.Sim.{fetch_message}
use nsb_ci.Client.Outward.{ask_for}
use nsb_ci.Client.Keyed.{IsStored, keyed, key_message, found_key}
use nsb_ci.Tests.Codec.{tag_of, codec_of, encoded}
use nsb_ci.Tests.Data.{alice, bob, empty_daemon}
use nsb_ci.Client.Homeward
use nsb_ci.Client.Journey.{journey}
use nsb_ci.Client.KeyedJourney.{KeyedWires, Passage, key_post, received_key, journey-stored}
use nsb_ci.Tests.Client.{ends}
use nsb_ci.Tests.Db.{Table, put, server, server-KeepsData, alice_db, zeroed, stored_at, table}

abbrev with_db : Config
with_db = record new_config { use_db = true }

abbrev app : Client
app = record {
  client_id = alice;
  origin = some Originator.app_client;
  cfg = with_db;
  db = some alice_db;
}

abbrev sim : Client
sim = record {
  client_id = bytes "sim";
  origin = some Originator.sim_client;
  cfg = with_db;
  db = some (record { client_id = bytes "sim"; plctr = 0 });
}

abbrev sim_db : Connector
sim_db = record { client_id = bytes "sim"; plctr = 0 }

abbrev bob_db : Connector
bob_db = record { client_id = bob; plctr = 3 }

abbrev peer : Client
peer = record {
  client_id = bob;
  origin = some Originator.app_client;
  cfg = with_db;
  db = some bob_db;
}

-- The key of the payload on its way back.
abbrev back_at : Bytes
back_at = payload_id (pos 6) (bytes "sim") 1

abbrev daemon : Daemon
daemon = record empty_daemon { cfg = with_db }

abbrev messages : List Nsbm
messages =
    (key_message alice bob stored_at zeroed
      ∷ ask_for alice (bytes "sim")
      ∷ found_key daemon (keyed alice bob stored_at 3)
      ∷ key_post alice bob back_at (104 ∷ [])
      ∷ Homeward.ask_for bob
      ∷ received_key daemon (keyed alice bob back_at 1)
      ∷ [])

abbrev codec : Os
codec = codec_of tag_of messages

stored : IsStored with_db
stored = record { pull = refl; db = refl }

wires : KeyedWires codec server daemon alice (bytes "sim") bob zeroed stored_at back_at
unfolding fetch_message msg_set_payload_obj c_str
wires = record {
  send_wire = 0 ∷ [];
  fetch_wire = 1 ∷ [];
  fetched_wire = 2 ∷ [];
  post_wire = 3 ∷ [];
  receive_wire = 4 ∷ [];
  received_wire = 5 ∷ [];
  send_encodes = encoded tag_of messages _ _ refl refl;
  fetch_encodes = encoded tag_of messages _ _ refl refl;
  fetched_encodes = encoded tag_of messages _ _ refl refl;
  post_encodes = encoded tag_of messages _ _ refl refl;
  receive_encodes = encoded tag_of messages _ _ refl refl;
  received_encodes = encoded tag_of messages _ _ refl refl;
}

-- The server after the first payload was taken, and after the second.
abbrev taken : Table
taken = put stored_at none table

abbrev held : Table
held = put back_at (some (104 ∷ [])) taken

outward : Passage codec server alice_db (pos 5) zeroed stored_at (λ x. none) taken
unfolding store check_out c_str to_string str_eq
outward = record {
  connector = record alice_db { plctr = 8 };
  between = table;
  read = 104 ∷ [];
  stored = refl;
  taken = refl;
  fine = refl;
}

homeward : Passage codec server sim_db (pos 6) (c_str zeroed) back_at taken (put back_at none held)
unfolding store check_out c_str to_string str_eq
homeward = record {
  connector = record sim_db { plctr = 1 };
  between = held;
  read = 104 ∷ [];
  stored = refl;
  taken = refl;
  fine = refl;
}

journey-stored_example :
    journey codec server (pos 5) (pos 6) zeroed app sim peer ends (λ x. none) daemon
    ≡ ok (put back_at none held, daemon, keyed alice bob (c_str zeroed) (length (c_str zeroed)))
unfolding entry_exists to_string
journey-stored_example =
    journey-stored codec server server-KeepsData (pos 5) (pos 6) zeroed stored_at back_at app sim
      peer ends alice_db sim_db bob_db (λ x. none) taken (put back_at none held) daemon refl refl
      refl refl stored stored stored refl refl refl refl outward homeward refl refl (omega arith) tt
      tt wires
