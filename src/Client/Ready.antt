-- ===== src/Client/Ready.antt =====
-- `fetch` of cpp/include/nsb_client.h and cpp/src/nsb_client.cc returns for a client that is set up.
use nsb_ci.Prelude.{
  ℕ, Bytes, false, List, [], ◌∷◌, none, some, ◌≡◌, refl, arith, inl, inr, ◌⊎◌, Option-cases, ◌∙◌,
}
use nsb_ci.Message.{
  Nsbm, Operation, OpCode, SystemMode, Originator, MessageEntry, blank_entry, get_manifest,
  get_metadata, get_payload,
}
use nsb_ci.Daemon.{Os, ok}
use nsb_ci.Db.{Redis}
use nsb_ci.Client.{
  Channel, serialize_as_string, Client, Done, Sent, answer_of, read_answer, repack, take_payload,
}
use nsb_ci.Client.Sim.{fetch_message, fetch, fetch_any, fetch_request}

-- A client that has been initialised and uses no database: its `fetch` returns.
pub record IsReady (c : Client) : Type 0 where
  pub og : Originator
  pub origin : c.origin ≡ some og
  pub plain : c.cfg.use_db ≡ false

module _ {S : Type 0} (os : Os) (r : Redis S) where
  answer_of_cases :
      (op : Operation) (code : OpCode) (c : Client) (s : S) (m : Nsbm)
      → (answer_of r Operation.fetch op code c s m ≡ repack r c s m)
        ⊎ (answer_of r Operation.fetch op code c s m ≡ ok (s, blank_entry))
  answer_of_cases Operation.fetch OpCode.message c s m = inl refl
  answer_of_cases Operation.forward OpCode.message c s m = inl refl
  answer_of_cases _ _ c s m = inr refl

  repack-plain :
      (c : Client) (s : S) (m : Nsbm)
      → c.cfg.use_db ≡ false
      → repack r c s m
        ≡ ok (
          s,
          record {
            source = (get_metadata m).src_id;
            destination = (get_metadata m).dest_id;
            payload_obj = get_payload m;
            payload_size = (get_metadata m).payload_size;
          },
        )
  unfolding repack take_payload
  repack-plain c s m h = rw h refl

  parsed-returns :
      (b : ℕ) (bs : Bytes) (m : Nsbm) (c : Client) (s : S)
      → os.parse (b ∷ bs) ≡ some m
      → c.cfg.use_db ≡ false
      → (answer_of r Operation.fetch (get_manifest m).op (get_manifest m).code c s m
          ≡ repack r c s m)
        ⊎ (answer_of r Operation.fetch (get_manifest m).op (get_manifest m).code c s m
            ≡ ok (s, blank_entry))
      → (e : MessageEntry) × (read_answer r os Operation.fetch (b ∷ bs) c s ≡ ok (s, e))
  unfolding read_answer
  parsed-returns b bs m c s e h (inl f) = (
    record {
      source = (get_metadata m).src_id;
      destination = (get_metadata m).dest_id;
      payload_obj = get_payload m;
      payload_size = (get_metadata m).payload_size;
    },
    rw (e, read_answer) (f ∙ repack-plain c s m h),
  )
  parsed-returns b bs m c s e h (inr f) = (blank_entry, rw (e, read_answer) f)

  not_parsed :
      (b : ℕ) (bs : Bytes) (c : Client) (s : S)
      → os.parse (b ∷ bs) ≡ none
      → read_answer r os Operation.fetch (b ∷ bs) c s ≡ ok (s, blank_entry)
  unfolding read_answer
  not_parsed b bs c s e = rw (e, read_answer) refl

  nothing_read :
      (c : Client) (s : S) → read_answer r os Operation.fetch [] c s ≡ ok (s, blank_entry)
  unfolding read_answer
  nothing_read c s = refl

  read_answer-returns :
      (response : Bytes) (c : Client) (s : S)
      → c.cfg.use_db ≡ false
      → (e : MessageEntry) × (read_answer r os Operation.fetch response c s ≡ ok (s, e))
  read_answer-returns [] c s h = (blank_entry, nothing_read c s)
  read_answer-returns (b ∷ bs) c s h = elim (Option-cases (os.parse (b ∷ bs))) [
    | inl e ↦ (blank_entry, not_parsed b bs c s e)
    | inr (m, e) ↦
        parsed-returns b bs m c s e h
          (answer_of_cases (get_manifest m).op (get_manifest m).code c s m)
  ]

  request_in :
      (mode : SystemMode) (c : Client)
      → c.cfg.system_mode ≡ mode
      → IsReady c
      → (sent : List Sent) × (fetch_request os r none c ≡ ok sent)
  unfolding fetch_request
  request_in SystemMode.pull c e h = (
    record {
      channel = Channel.recv;
      wire = serialize_as_string os (fetch_message h.og c.cfg.simulator_mode c.client_id none);
    }
        ∷ [],
    rw (e, fetch_request, h.origin) refl,
  )
  request_in SystemMode.push c e h = ([], rw (e, fetch_request) refl)
  request_in (SystemMode.other n) c e h = ([], rw (e, fetch_request) refl)

  fetch-returns :
      (response : Bytes) (c : Client) (s : S)
      → IsReady c
      → (d : Done S MessageEntry) × (fetch os r none response c s ≡ ok d)
        × (d.client ≡ c)
        × (d.db ≡ s)
  unfolding fetch
  fetch-returns response c s h =
      let (sent, e) = request_in c.cfg.system_mode c refl h in
      let (entry, e') = read_answer-returns response c s h.plain in
      (record { db = s; client = c; result = entry; sent = sent }, rw (e, e') refl, refl, refl)

  any_in :
      (mode : SystemMode) (response : Bytes) (c : Client) (s : S)
      → c.cfg.system_mode ≡ mode
      → (fetch_any os r response c s ≡ fetch os r none response c s)
        ⊎ (fetch_any os r response c s
            ≡ ok (record { db = s; client = c; result = blank_entry; sent = [] }))
  unfolding fetch_any
  any_in SystemMode.pull response c s e = inl (ground arith)
  any_in SystemMode.push response c s e = inl (ground arith)
  any_in (SystemMode.other n) response c s e = inr (ground arith)

  -- A fetch of such a client returns, with whatever entry, and leaves the client and the store alone.
  pub fetch_any-returns :
      (response : Bytes) (c : Client) (s : S)
      → IsReady c
      → (d : Done S MessageEntry) × (fetch_any os r response c s ≡ ok d)
        × (d.client ≡ c)
        × (d.db ≡ s)
  fetch_any-returns response c s h = elim (any_in c.cfg.system_mode response c s refl) [
    | inl e ↦ let (d, f, same, same') = fetch-returns response c s h in (d, e ∙ f, same, same')
    | inr e ↦ (record { db = s; client = c; result = blank_entry; sent = [] }, e, refl, refl)
  ]
