-- ===== src/Tests/Network.antt =====
-- What the tests of the simulated networks share: a codec under which every text is one answer to FETCH.
use nsb_ci.Prelude.{pos, Bytes, bytes, [], ◌∷◌, some, ◌≡◌, refl}
use nsb_ci.Message.{
  Nsbm, Operation, Originator, OpCode, MessageEntry, new_nsbm, set_manifest, set_metadata,
  set_payload,
}
use nsb_ci.Daemon.{Os, ok}
use nsb_ci.Client.{Done, Channel}
use nsb_ci.Client.Sim.{fetch_any}
use nsb_ci.Client.Ready.{IsReady}
use nsb_ci.Client.Relay.{carried}
use nsb_ci.Tests.Data.{hello, os}
use nsb_ci.Tests.Client.{no_redis, sim}

abbrev pub first_host : Bytes
first_host = bytes "host0"

abbrev pub second_host : Bytes
second_host = bytes "host1"

abbrev pub answer : Nsbm
answer = set_payload hello (
    set_metadata first_host second_host (pos 5)
      (set_manifest Operation.fetch Originator.daemon OpCode.message new_nsbm))

abbrev pub answering : Os
answering = record os { parse = λ wire. some answer }

abbrev pub got : Done (Unit {0}) MessageEntry
got = record {
  db = tt;
  client = sim;
  result = carried first_host second_host hello;
  sent = record { channel = Channel.recv; wire = 10 ∷ 0 ∷ [] } ∷ [];
}

pub fetch_any-got : fetch_any answering no_redis (1 ∷ []) sim tt ≡ ok got
unfolding fetch_any
fetch_any-got = refl

pub sim-IsReady : IsReady sim
sim-IsReady = record { og = Originator.sim_client; origin = refl; plain = refl }
