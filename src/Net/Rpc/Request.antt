-- ===== src/Net/Rpc/Request.antt =====
-- What the network thread makes of a request of the RPC to add a peer.
use bullet_ledger.Base.{ℕ, ◌≡◌, ◌<◌, refl, ap, some, List, [], ◌∷◌, ◌++◌, replicate, arith}
use bullet_ledger.Base.Assoc.{lookup}
use bullet_ledger.Base.Slices.{resize}
use bullet_ledger.Base.Words.{to_le_bytes, from_le_bytes}
use bullet_ledger.Header.{reset_buffer, new_buffer}
use bullet_ledger.Peers.{PeerMan}
use bullet_ledger.Spsc.Refine.{fifo_pop}
use bullet_ledger.Net.Message as Message
use bullet_ledger.Net.Message.{NetMsg, adds_peer, fill_for_internal}
use bullet_ledger.Net.Hub.{Hub, collect, collect_internal, enqueue_internal}
use bullet_ledger.Net.Manager.{from_bits, body_ips, change_peers, handle_internal}
use bullet_ledger.Net.Rpc.{RpcConn, networker_id, rpc_id, request}

abbrev asked : ℕ → ℕ → List ℕ → NetMsg
asked id id' ip = fill_for_internal id' rpc_id adds_peer ip (Message.new id)

last_ip : (a : ℕ) → a < 256 → from_bits (from_le_bytes (0 ∷ (0 ∷ (0 ∷ (a ∷ []))))) ≡ a
unfolding from_bits to_le_bytes from_le_bytes
last_ip a h = omega (arith, h)

asked-ips :
    (id id' a b c d : ℕ)
    → a < 256
    → body_ips (asked id id' (a ∷ (b ∷ (c ∷ (d ∷ []))))).body ≡ replicate 9 0 ++ a ∷ []
unfolding fill_for_internal Message.reset Message.new reset_buffer new_buffer resize body_ips
    from_bits to_le_bytes from_le_bytes
asked-ips id id' a b c d h = ap (λ n. replicate 9 0 ++ n ∷ []) (last_ip a h)

collected :
    (id capacity : ℕ) (taken sent : List NetMsg) (server : Hub)
    → lookup networker_id server.to_internals
      ≡ some (record { capacity = capacity; taken = taken; sent = sent; used = [] })
    → ((collect_internal id networker_id server).0 ≡ Message.new id)
      × ((collect_internal id networker_id server).1.internal_msgs ≡ server.internal_msgs)
unfolding collect_internal collect fifo_pop
collected id capacity taken sent server e =
    (rw (e, collect_internal) refl, rw (e, collect_internal) refl)

-- When the RPC has a request to add the peer a.b.c.d, a an octet, and its link to the network thread has no used message, the message
-- that it queues last makes the network thread add the address 0.0.0.0 nine times and then a.0.0.0.
pub request-adds_others :
    (id id' a b c d capacity : ℕ) (taken sent : List NetMsg) (self : RpcConn) (server : Hub)
    (p : PeerMan)
    → a < 256
    → self.read_buffer ≡ a ∷ (b ∷ (c ∷ (d ∷ [])))
    → lookup networker_id server.to_internals
      ≡ some (record { capacity = capacity; taken = taken; sent = sent; used = [] })
    → (m : NetMsg) × ((request id id' adds_peer self server).internal_msgs
        ≡ server.internal_msgs ++ (networker_id, m) ∷ [])
      × ((handle_internal m p).1 ≡ change_peers adds_peer (replicate 9 0 ++ a ∷ []) p)
unfolding request enqueue_internal handle_internal
request-adds_others id id' a b c d capacity taken sent self server p h buf link =
    let (fresh, queue) = collected id capacity taken sent server link in
    (
      asked id id' (a ∷ (b ∷ (c ∷ (d ∷ [])))),
      rw (queue, fresh, buf) refl,
      ap (λ ips. change_peers adds_peer ips p) (asked-ips id id' a b c d h),
    )
