-- ===== src/Tests/Codec.antt =====
-- A codec for the tests: a text is the number that a message has, and its place in a list.
use nsb_ci.Prelude.{zero, suc, ℕ, List, ap, Bytes, [], ◌∷◌, none, some, ◌≡◌, refl, Option}
use nsb_ci.Message.{Nsbm, Operation, Originator, OpCode, get_manifest}
use nsb_ci.Daemon.{Os}
use nsb_ci.Client.Relay.{Encodes}
use nsb_ci.Tests.Data.{os}

-- The number of a message of the clients or the daemon.
abbrev tag : Operation → Originator → OpCode → ℕ
tag Operation.send og c = 0
tag Operation.fetch og OpCode.success = 1
tag Operation.fetch og c = 2
tag Operation.post og c = 3
tag Operation.receive og OpCode.success = 4
tag Operation.receive og c = 5
tag Operation.ping Originator.daemon c = 8
tag Operation.ping og c = 6
tag _ og c = 7

abbrev pub tag_of : Nsbm → ℕ
tag_of m = tag (get_manifest m).op (get_manifest m).og (get_manifest m).code

abbrev pub pick : List Nsbm → ℕ → Option Nsbm
pick [] n = none
pick (m ∷ ms) zero = some m
pick (m ∷ ms) (suc n) = pick ms n

abbrev meaning : List Nsbm → Bytes → Option Nsbm
meaning ms [] = none
meaning ms (n ∷ bs) = pick ms n

abbrev pub codec_of : (Nsbm → ℕ) → List Nsbm → Os
codec_of t ms = record os { serialize = λ m. some (t m ∷ []); parse = meaning ms }

pub encoded :
    (t : Nsbm → ℕ) (ms : List Nsbm) (m : Nsbm) (n : ℕ)
    → t m ≡ n
    → pick ms n ≡ some m
    → Encodes (codec_of t ms) m (n ∷ [])
encoded t ms m n e e' = record {
  serialized = ap (λ k. some (k ∷ [])) e;
  parsed = e';
  not_empty = λ e. cc;
  memory = refl;
}
