-- ===== src/Net/Manager.antt =====
-- src/peer_net/mod.rs: what the network thread does with the messages of other threads, with addresses and with errors.
use mathlib.Core.List.{reverse}
use bullet_ledger.Base.{ℕ, Option, some, List, [], ◌∷◌, ◌>>=◌, Bool, true, false}
use bullet_ledger.Base.Words.{to_le_bytes, from_le_bytes}
use bullet_ledger.Peers.{
  SocketAddr, NetError, ok, err, PeerMan, add_peer, remove_peer, is_banned, record_behaviour,
}
use bullet_ledger.Net.Message.{
  NetMsg, NetManCode, no_action, adds_peer, removes_peer, internal, external,
}

-- `Ipv4Addr::from_bits`: the octets of the word, most significant first. An address is the number that its octets
-- spell, least significant first.
unfoldable pub from_bits : ℕ → ℕ
from_bits n = from_le_bytes (reverse (to_le_bytes 4 n))

-- The addresses in a message's body, four bytes each; what is left over at the end is not read.
unfoldable pub body_ips : List ℕ → List ℕ
unfolding from_bits
body_ips (a ∷ b ∷ c ∷ d ∷ rest) = from_bits (from_le_bytes (a ∷ b ∷ c ∷ d ∷ [])) ∷ body_ips rest
body_ips _ = []

unfoldable pub change_peers : NetManCode → List ℕ → PeerMan → PeerMan
change_peers code [] p = p
change_peers adds_peer (ip ∷ ips) p = change_peers adds_peer ips (add_peer ip p)
change_peers removes_peer (ip ∷ ips) p = change_peers removes_peer ips (remove_peer ip p)
change_peers no_action (ip ∷ ips) p = p

-- The message goes back to its thread in any case.
unfoldable pub handle_internal : NetMsg → PeerMan → NetMsg × PeerMan
unfolding change_peers body_ips
handle_internal m p = elim m.code [
  | internal code ↦ (m, change_peers code (body_ips m.body) p)
  | external code ↦ (m, p)
]

unfoldable pub allow_connection : SocketAddr → PeerMan → Bool
allow_connection addr p = elim (is_banned addr p) [ ok ↦ true | err e ↦ false ]

-- `handle_errored`; what `record_behaviour` answers is dropped.
unfoldable pub handle_errored : Bool → NetError → SocketAddr → PeerMan → Option PeerMan
unfolding record_behaviour
handle_errored checks e addr p = do (p', answer) ← record_behaviour checks addr e p; some p'
