-- ===== src/Omnet/Frame.antt =====
-- The packet of `nsbBasicApp::sendPacket` and `nsbAppSink::processPacket` under
-- examples/omnet/nsb_omnet_inet: two names, each after its length, and the payload. A length is written
-- as the machine keeps it, here with the low byte first.
use nsb_ci.Prelude.{
  ℕ, zero, suc, ◌+◌, ◌*◌, ◌/◌, ◌%◌, ◌^◌, ltb, Bytes, [], ◌∷◌, ◌++◌, if◌then◌else◌, length, take,
  drop,
}
use nsb_ci.Daemon.{Outcome, ok, undefined, ◌>>=◌}

-- `uint16_t len = s.size();`
abbrev pub u16 : ℕ → ℕ
u16 n = n % 2 ^ 16

-- `buffer.write(&len, sizeof(len))`
abbrev pub write_u16 : ℕ → Bytes
write_u16 n = n % 256 ∷ n / 256 ∷ []

-- A name behind its length: as many bytes as the length says.
unfoldable pub write_name : Bytes → Bytes
write_name s = let n = u16 (length s) in write_u16 n ++ take n s

unfoldable pub write_frame : Bytes → Bytes → Bytes → Bytes
write_frame src dest payload = write_name src ++ (write_name dest ++ payload)

-- What the packet says.
pub record Frame : Type 0 where
  pub src_id : Bytes
  pub dest_id : Bytes
  pub payload : Bytes

-- A read into a length that is not there leaves it uninitialised.
unfoldable pub read_u16 : Bytes → Outcome (ℕ × Bytes)
read_u16 [] = undefined
read_u16 (a ∷ []) = undefined
read_u16 (a ∷ b ∷ s) = ok (a + 256 * b, s)

-- A read into a text of `n` zero bytes writes over as many as there are.
unfoldable pub read_name : ℕ → Bytes → Bytes
read_name zero s = []
read_name (suc n) [] = 0 ∷ read_name n []
read_name (suc n) (c ∷ s) = c ∷ read_name n s

-- After a read that came up short the stream has failed, and the next length is never read.
unfoldable pub after_name : ℕ → Bytes → Outcome Bytes
after_name n s = if ltb (length s) n then undefined else ok (drop n s)

unfoldable pub read_frame : Bytes → Outcome Frame
read_frame bytes = do
  (n, s) ← read_u16 bytes
  t ← after_name n s
  (m, u) ← read_u16 t
  ok (record { src_id = read_name n s; dest_id = read_name m u; payload = drop m u })
