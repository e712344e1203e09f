-- ===== src/Daemon/Queues.antt =====
-- The buffers of the daemon in PULL mode, seen as one queue for each source (`tx_buffer`) and one for
-- each destination (`rx_buffer`), and the operations of cpp/src/nsb_daemon.cc against that view.
use nsb_ci.Prelude.{
  Bytes, Bool, true, false, List, [], ◌∷◌, ◌++◌, ◌≡◌, ◌≢◌, arith, str_eq, str_eq_iff, keep,
  keep-append, append-nil, if◌then◌else◌,
}
use nsb_ci.Message.{Nsbm, Operation, Config, MessageEntry, get_manifest, get_metadata, is_message}
use nsb_ci.Store.Buffer.{take_match, behind, take_match-keep, take_match-keep_other}
use nsb_ci.Daemon.{Daemon}
use nsb_ci.Daemon.Messages.{entry_of, fetch_entry, receive_entry}

abbrev pub Queues : Type 0
Queues = Bytes → List MessageEntry

abbrev pub from_source : Bytes → MessageEntry → Bool
from_source s e = str_eq e.source s

abbrev pub to_destination : Bytes → MessageEntry → Bool
to_destination s e = str_eq e.destination s

pub record Views : Type 0 where
  pub tx : Queues
  pub rx : Queues

abbrev pub views : Daemon → Views
views d = record {
  tx = λ s. keep (from_source s) d.tx_buffer;
  rx = λ s. keep (to_destination s) d.rx_buffer;
}

-- Put an entry at the end of the queue of a name.
abbrev pub enqueue : Bytes → MessageEntry → Queues → Queues
enqueue name e q = λ s. if str_eq name s then q s ++ e ∷ [] else q s

-- Drop the oldest entry of the queue of a name.
abbrev pub dequeue : Bytes → Queues → Queues
dequeue name q = λ s. if str_eq name s then behind (q s) else q s

-- What an operation does to the queues.
abbrev pub spec_on : Operation → Config → Nsbm → Views → Views
spec_on Operation.send cfg m v = record v {
  tx = enqueue (get_metadata m).src_id (entry_of cfg m) v.tx;
}
spec_on Operation.fetch cfg m v = record v { tx = dequeue (get_metadata m).src_id v.tx }
spec_on Operation.post cfg m v =
    if is_message (get_manifest m).code
    then record v { rx = enqueue (get_metadata m).dest_id (entry_of cfg m) v.rx }
    else v
spec_on Operation.receive cfg m v = record v { rx = dequeue (get_metadata m).dest_id v.rx }
spec_on _ cfg m v = v

abbrev pub spec_step : Config → Nsbm → Views → Views
spec_step cfg m v = spec_on (get_manifest m).op cfg m v

pub record SameViews (v w : Views) : Type 0 where
  pub tx : (s : Bytes) → v.tx s ≡ w.tx s
  pub rx : (s : Bytes) → v.rx s ≡ w.rx s

-- FETCH names its source and RECEIVE its destination, as clients in the program's own modes do.
abbrev pub IsAddressed : Nsbm → Type 0
IsAddressed m =
    ((get_manifest m).op ≡ Operation.fetch → (get_metadata m).src_id ≢ [])
    × ((get_manifest m).op ≡ Operation.receive → (get_metadata m).dest_id ≢ [])

pub fetch_addressed :
    (m : Nsbm) (es : List MessageEntry)
    → (get_metadata m).src_id ≢ []
    → fetch_entry m es ≡ take_match (from_source (get_metadata m).src_id) es
unfolding fetch_entry
fetch_addressed m es h = ground arith

pub receive_addressed :
    (m : Nsbm) (es : List MessageEntry)
    → (get_metadata m).dest_id ≢ []
    → receive_entry m es ≡ take_match (to_destination (get_metadata m).dest_id) es
unfolding receive_entry
receive_addressed m es h = ground arith

-- Taking the oldest entry named `name` pops its queue, and no other.
pub take_named :
    (key : MessageEntry → Bytes) (name s : Bytes) (es : List MessageEntry)
    → keep (λ e. str_eq (key e) s) (take_match (λ e. str_eq (key e) name) es).rest
      ≡ dequeue name (λ t. keep (λ e. str_eq (key e) t) es) s
take_named key name s es = ground (
  arith,
  str_eq_iff name s,
  take_match-keep (λ e. str_eq (key e) name) es,
  take_match-keep_other (λ e. str_eq (key e) name) (λ e. str_eq (key e) s) es,
  apart,
)
  where
    apart :
        str_eq name s ≡ false
        → (e : MessageEntry) → str_eq (key e) name ≡ true
        → str_eq (key e) s ≡ false
    apart h e p = ground (arith, str_eq_iff name s, str_eq_iff (key e) name, str_eq_iff (key e) s)

-- An entry at the end of the buffer joins its queue, and no other.
pub append_named :
    (key : MessageEntry → Bytes) (e : MessageEntry) (s : Bytes) (es : List MessageEntry)
    → keep (λ x. str_eq (key x) s) (es ++ e ∷ [])
      ≡ enqueue (key e) e (λ t. keep (λ x. str_eq (key x) t) es) s
unfolding keep
append_named key e s es = ground (
  arith,
  keep-append (λ x. str_eq (key x) s) es (e ∷ []),
  append-nil (keep (λ x. str_eq (key x) s) es),
)
