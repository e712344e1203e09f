-- ===== src/Ns3/Names.antt =====
-- The names of hosts and their addresses, on the way into the network of examples/ns3 and out of it.
use nsb_ci.Prelude.{
  ℕ, suc, ◌+◌, ◌<◌, ◌^◌, pos, Bytes, bytes, to_string, true, false, [], ◌∷◌, ◌++◌, none, some, ◌≡◌,
  refl, arith, ap, ◌∙◌, is_empty, Bool,
}
use nsb_ci.Message.{MessageEntry}
use nsb_ci.Daemon.{ok}
use nsb_ci.Hosts.{host_index, host_name, is_host, stoi}
use nsb_ci.Hosts.Numbers.{
  AreDigits, to_string-AreDigits, stoi-to_string, host_index-host_name, host_name-is_host,
}
use nsb_ci.Ns3.Tcp.{after_last_dot, pred_int, name_of_ip}
use nsb_ci.Ns3.Forward.{
  node_address, suc_int, node_at, connected, transfer_of, start_transfer, forward_entry,
}

no_dot : (s : Bytes) → AreDigits s → after_last_dot s ≡ none
unfolding after_last_dot
no_dot [] h = refl
no_dot (c ∷ s) h = ground (arith, no_dot s h.1, h.0)

at_dot : (s : Bytes) → AreDigits s → after_last_dot (46 ∷ s) ≡ some s
unfolding after_last_dot
at_dot s h = rw (no_dot s h, after_last_dot) refl

before_dot : (p s t : Bytes) → after_last_dot s ≡ some t → after_last_dot (p ++ s) ≡ some t
unfolding after_last_dot
before_dot [] s t e = e
before_dot (c ∷ p) s t e = rw (before_dot p s t e, after_last_dot) refl

names :
    (ip t : Bytes) (n : ℕ)
    → after_last_dot ip ≡ some t
    → stoi t ≡ ok (pos (suc n))
    → name_of_ip ip ≡ ok (some (host_name n))
unfolding name_of_ip pred_int
names ip t n e f = rw (e, name_of_ip, f) refl

pub last_of-node_address :
    (i : ℕ) → after_last_dot (node_address i) ≡ some (to_string (pos (i + 1)))
last_of-node_address i =
    before_dot (bytes "10.1.1") _ _ (at_dot (to_string (pos (i + 1))) (to_string-AreDigits (i + 1)))

-- The address of a node gives the node's name.
pub name_of_ip-node_address :
    (i : ℕ) → i + 1 < 2 ^ 31 → name_of_ip (node_address i) ≡ ok (some (host_name i))
name_of_ip-node_address i h =
    let e : i + 1 ≡ suc i = omega arith in
    names (node_address i) (to_string (pos (i + 1))) i (last_of-node_address i)
      (stoi-to_string (i + 1) h ∙ ap (λ k. ok (pos k)) e)

suc_int-small : (j : ℕ) → j + 1 < 2 ^ 31 → suc_int (pos j) ≡ ok (pos (j + 1))
unfolding suc_int
suc_int-small j h = ground arith

pub node_at-lt : (nodes i : ℕ) → i < nodes → node_at nodes (pos i) ≡ ok i
unfolding node_at
node_at-lt nodes i h = ground arith

module _ (nodes : ℕ) (connects : ℕ → Bytes → Bool) (i j : ℕ) (e : MessageEntry) where
  starts :
      e.source ≡ host_name i
      → e.destination ≡ host_name j
      → i < nodes
      → i < 2 ^ 31
      → j + 1 < 2 ^ 31
      → connects i (node_address j) ≡ true
      → start_transfer nodes connects e ≡ ok (connected i (node_address j) (transfer_of e))
  unfolding start_transfer
  starts src dest node small small' up =
      rw
        (
          ap host_index dest ∙ host_index-host_name j (omega arith),
          suc_int-small j small',
          ap host_index src ∙ host_index-host_name i small,
          node_at-lt nodes i node,
          up,
        )
        refl

  -- A message from "host" i to "host" j begins a transfer of its payload, at node i and to the address of node
  -- j, if there is a node i and it connects.
  pub forward_entry-host_name :
      e.source ≡ host_name i
      → e.destination ≡ host_name j
      → i < nodes
      → i < 2 ^ 31
      → j + 1 < 2 ^ 31
      → connects i (node_address j) ≡ true
      → forward_entry nodes connects e ≡ ok (connected i (node_address j) (transfer_of e))
  unfolding forward_entry
  forward_entry-host_name src dest node small small' up =
      let known : is_host e.source ≡ true = ap is_host src ∙ host_name-is_host i in
      let known' : is_host e.destination ≡ true = ap is_host dest ∙ host_name-is_host j in
      let there : is_empty e.source ≡ false = ap is_empty src in
      let there' : is_empty e.destination ≡ false = ap is_empty dest in
      rw (known, known', there, there', starts src dest node small small' up) refl
