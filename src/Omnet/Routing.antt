-- ===== src/Omnet/Routing.antt =====
-- A message through the network of `NSBHost`s, each of which is named after its index.
use nsb_ci.Prelude.{
  ℕ, ℤ, pos, ◌<◌, ◌^◌, Bytes, true, false, [], ◌∷◌, ◌++◌, ◌≡◌, refl, ◌≢◌, arith, ap, sym, ◌∙◌,
  str_eq, str_eq_iff, Bool-cases, inl, inr,
}
use nsb_ci.Message.{MessageEntry, entry_exists}
use nsb_ci.Daemon.{Os, ok, ◌>>=◌}
use nsb_ci.Db.{Redis, c_str}
use nsb_ci.Client.{Done}
use nsb_ci.Client.Sim.{fetch_any, post}
use nsb_ci.Hosts.{host_index, host_name}
use nsb_ci.Hosts.Numbers.{host_index-host_name, host_name-injective}
use nsb_ci.Omnet.Host.{
  NsbMessage, Host, message_of, send_out, did, send_packet_host, process_packet_host,
}

-- No text of an entry holds a zero byte.
pub record IsText (e : MessageEntry) : Type 0 where
  pub source : c_str e.source ≡ e.source
  pub destination : c_str e.destination ≡ e.destination
  pub payload : c_str e.payload_obj ≡ e.payload_obj

abbrev pub whole_message : MessageEntry → NsbMessage
whole_message e = record { src_id = e.source; dest_id = e.destination; payload = e.payload_obj }

message_of-IsText : (e : MessageEntry) → IsText e → message_of e ≡ whole_message e
unfolding message_of
message_of-IsText e t = rw (t.source, t.destination, t.payload) refl

other_name : (i j : ℕ) → i ≢ j → str_eq (host_name j) (host_name i) ≡ false
other_name i j ne = elim (Bool-cases (str_eq (host_name j) (host_name i))) [
  | inl same ↦
      absurd (ne (host_name-injective i j (sym ((str_eq_iff (host_name j) (host_name i)).0 same))))
  | inr apart ↦ apart
]

module _ {S : Type 0} (os : Os) (r : Redis S) where
  leaves :
      (j : ℕ) (m : NsbMessage) (h : Host S)
      → j < h.out_gates
      → send_out (pos j) m h
        ≡ ok (record h { left = h.left ++ record { gate = j; message = m } ∷ [] })
  unfolding send_out
  leaves j m h lt = ground arith

  send_packet_host-leaves :
      (j : ℕ) (response : Bytes) (h : Host S) (d : Done S MessageEntry)
      → fetch_any os r response h.client h.db ≡ ok d
      → entry_exists d.result ≡ true
      → IsText d.result
      → d.result.destination ≡ host_name j
      → j < h.out_gates
      → j < 2 ^ 31
      → send_packet_host os r response h
        ≡ ok (record (did d h) {
          left = h.left ++ record { gate = j; message = whole_message d.result } ∷ [];
        })
  unfolding send_packet_host
  send_packet_host-leaves j response h d e exists text named gate small =
      let i : host_index (c_str d.result.destination) ≡ ok (pos j) =
        ap host_index (text.destination ∙ named) ∙ host_index-host_name j small in
      rw (e, exists, i, message_of-IsText d.result text)
        (leaves j (whole_message d.result) (did d h) gate)

  process_packet_host-host_name :
      (i j : ℕ) (tms : ℤ) (m : NsbMessage) (h : Host S)
      → h.host_id ≡ host_name i
      → m.dest_id ≡ host_name j
      → j < h.out_gates
      → j < 2 ^ 31
      → (i ≡ j
          → process_packet_host os r tms m h
            ≡ (post os r tms m.src_id m.dest_id m.payload h.client h.db >>= λ d. ok (did d h)))
        × (i ≢ j
            → process_packet_host os r tms m h
              ≡ ok (record h { left = h.left ++ record { gate = j; message = m } ∷ [] }))
  unfolding process_packet_host
  process_packet_host-host_name i j tms m h named dest gate small =
      let index : host_index m.dest_id ≡ ok (pos j) =
        ap host_index dest ∙ host_index-host_name j small in
      (
        λ e.
            let same : str_eq m.dest_id h.host_id ≡ true =
              (str_eq_iff m.dest_id h.host_id).1 (dest ∙ sym (ap host_name e) ∙ sym named) in
            rw (index, same) refl,
        λ ne.
            let apart : str_eq m.dest_id h.host_id ≡ false = rw (dest, named) (other_name i j ne) in
            rw (index, apart) (leaves j m h gate),
      )

  -- The host that fetches a message for "host" j hands it to its gate j. Whoever gets it then, itself included:
  -- the host of that name posts it with the source, the destination and the payload that were fetched, and any
  -- other host hands it on, as it is, to its own gate j. The fetched entry exists and holds no zero byte, and
  -- the hosts have a gate j.
  pub send_packet_host-process_packet_host :
      (j : ℕ) (response : Bytes) (h : Host S) (d : Done S MessageEntry)
      → fetch_any os r response h.client h.db ≡ ok d
      → entry_exists d.result ≡ true
      → IsText d.result
      → d.result.destination ≡ host_name j
      → j < h.out_gates
      → j < 2 ^ 31
      → (send_packet_host os r response h
          ≡ ok (record (did d h) {
            left = h.left ++ record { gate = j; message = whole_message d.result } ∷ [];
          }))
        × ((i : ℕ) (tms : ℤ) (k : Host S)
            → k.host_id ≡ host_name i
            → j < k.out_gates
            → (i ≡ j
                → process_packet_host os r tms (whole_message d.result) k ≡ (
                    post os r tms d.result.source d.result.destination d.result.payload_obj k.client
                      k.db
                    >>= λ d'. ok (did d' k)))
              × (i ≢ j
                  → process_packet_host os r tms (whole_message d.result) k
                    ≡ ok (record k {
                      left = k.left ++ record { gate = j; message = whole_message d.result } ∷ [];
                    })))
  send_packet_host-process_packet_host j response h d e exists text named gate small = (
    send_packet_host-leaves j response h d e exists text named gate small,
    λ i tms k known gate'.
        process_packet_host-host_name i j tms (whole_message d.result) k known named gate' small,
  )
