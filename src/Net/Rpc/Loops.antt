-- ===== src/Net/Rpc/Loops.antt =====
-- src/rpc/connection.rs, src/rpc/mod.rs: the loops of `on_readable` and `on_writable`. They take rounds; an outer `none` says that
-- those were not enough, an inner one is a panic. `draw` gives the numbers drawn for the messages of each round.
use bullet_ledger.Base.{
  ℕ, zero, suc, ◌+◌, ◌*◌, ◌==◌, ◌||◌, Bool, true, false, Option, none, some, [], ◌∷◌, if◌then◌else◌,
  ltb, leb, length, drop, guard, ◌>>=◌, ◌>>◌,
}
use bullet_ledger.Peers.{connection_aborted, other}
use bullet_ledger.Net.Socket.{Got, got, would_block, broken, write}
use bullet_ledger.Net.Message.{NetMsg}
use bullet_ledger.Net.Hub.{Hub, put_buff, collect_internal, enqueue_internal}
use bullet_ledger.Net.Peer.Handle.{blockchain_id}
use bullet_ledger.Net.Server.{Answer, done, failed}
use bullet_ledger.Net.Rpc.{
  RpcConn, idle, writing, Turn, goes_on, leaves, fails, networker_id, read_turn,
}

unfoldable pub read_rounds :
    ℕ → (ℕ → ℕ) → Bool → RpcConn → Hub → Option (Option (Answer Bool × RpcConn × Hub))
unfolding read_turn
read_rounds zero draw worked self server = none
read_rounds (suc rounds) draw worked self server =
    elim (read_turn (draw (2 * rounds)) (draw (2 * rounds + 1)) self server) [
      | none ↦ some none
      | some (fails e, more, self1, server1) ↦ some (some (failed e, self1, server1))
      | some (leaves, more, self1, server1) ↦ some (some (done (worked || more), self1, server1))
      | some (goes_on, more, self1, server1) ↦
          read_rounds rounds draw (worked || more) self1 server1
    ]

unfoldable pub after_write : Got ℕ → RpcConn → Turn × Bool × RpcConn
after_write would_block self = (leaves, false, self)
after_write broken self = (fails (other []), false, self)
after_write (got n) self =
    let self1 = record self { write_pos = self.write_pos + n } in
    if n == 0
    then (fails connection_aborted, false, self)
    else if ltb self1.write_pos (length self1.write_buffer)
    then (leaves, true, record self1 { write_state = some writing })
    else (goes_on, true, record self1 { write_state = some idle })

-- The match of `on_writable`, on the state that it took.
unfoldable pub write_turn : RpcConn → Hub → Option (Turn × Bool × RpcConn × Hub)
unfolding put_buff write after_write
write_turn self server =
    let taken = record self { write_state = none } in
    elim self.write_state [
      | none ↦ some (fails (other []), false, taken, server)
      | some idle ↦ elim self.outbound [
        | [] ↦ some (leaves, false, record taken { write_state = some idle }, server)
        | b ∷ queue ↦ some (
          goes_on,
          true,
          record taken {
            outbound = queue;
            write_buffer = b;
            write_pos = 0;
            write_state = some writing;
          },
          put_buff self.write_buffer server,
        )
      ]
      | some writing ↦ do
        s ← self.stream
        guard (leb self.write_pos (length self.write_buffer))
        let (answer, s') = write (drop self.write_pos self.write_buffer) s
        let (turn, worked, self1) = after_write answer (record taken { stream = some s' })
        some (turn, worked, self1, server)
    ]

unfoldable pub write_rounds :
    ℕ → Bool → RpcConn → Hub → Option (Option (Answer Bool × RpcConn × Hub))
unfolding write_turn
write_rounds zero worked self server = none
write_rounds (suc rounds) worked self server = elim (write_turn self server) [
  | none ↦ some none
  | some (fails e, more, self1, server1) ↦ some (some (failed e, self1, server1))
  | some (leaves, more, self1, server1) ↦ some (some (done (worked || more), self1, server1))
  | some (goes_on, more, self1, server1) ↦ write_rounds rounds (worked || more) self1 server1
]

-- `handle_internal` of src/rpc/mod.rs: a message of the network thread sends one on to the blockchain.
unfoldable pub on_internal : ℕ → NetMsg → Hub → NetMsg × Hub
unfolding collect_internal enqueue_internal
on_internal id m server =
    let (new_msg, server1) = collect_internal id blockchain_id server in
    (
      m,
      if m.from_code == networker_id
          then enqueue_internal blockchain_id new_msg server1
          else server,
    )
