-- ===== src/Net/Peer/Write.antt =====
-- src/peer_net/connection.rs: the writing side of a connection.
pub mod Wire
use bullet_ledger.Base.{
  ◌≡◌, ℕ, ◌+◌, ◌==◌, ◌&&◌, ◌||◌, not, Bool, true, false, Option, none, some, List, [], ◌∷◌, ◌++◌,
  if◌then◌else◌, ltb, leb, length, take, drop, is_some, ◌>>=◌,
}
use bullet_ledger.Base.Assoc.{insert}
use bullet_ledger.Header.{Header, raw_marshal, encrypt_marshal, reset_buffer}
use bullet_ledger.Peers.{NetError, connection_aborted, encryption, other}
use bullet_ledger.Net.Message.{NetMsg, Handler, internal, external}
use bullet_ledger.Net.Socket.{Socket, Room, accepts, full, refuses}
use bullet_ledger.Net.Hub.{Hub, put_msg}
use bullet_ledger.Net.Server.{Answer, done, failed}
use bullet_ledger.Net.Peer.{Ciphers, PeerIo, PeerConnection, idle, writing, disable_writable}

-- How the loop of `write_packet` ends.
pub data Written : Type 0 where
  all_written : Written
  blocked : Written
  aborted : Written
  write_failed : Written

-- The loop, on what is left of the buffer: how it ends, the number of bytes written, whether there were any, and the
-- socket's room and bytes after it. Where the script of the socket ends, a write would block.
unfoldable pub write_loop :
    List Room → List ℕ → ℕ → Bool → List ℕ → Written × ℕ × Bool × List Room × List ℕ
write_loop rooms [] n worked wire = (all_written, n, worked, rooms, wire)
write_loop [] (b ∷ bs) n worked wire = (blocked, n, worked, [], wire)
write_loop (full ∷ rooms) (b ∷ bs) n worked wire = (blocked, n, worked, rooms, wire)
write_loop (refuses ∷ rooms) (b ∷ bs) n worked wire = (write_failed, n, worked, rooms, wire)
write_loop (accepts k ∷ rooms) (b ∷ bs) n worked wire =
    let m = (if leb k (length (b ∷ bs)) then k else length (b ∷ bs)) in
    let rest = write_loop rooms (drop m (b ∷ bs)) (n + m) true (wire ++ take m (b ∷ bs)) in
    if k == 0 then (aborted, n, worked, rooms, wire) else rest

module _ (c : Ciphers) where
  unfoldable pub idle_write : PeerIo → PeerConnection c → Hub → Answer Bool × PeerConnection c × Hub
  unfolding put_msg disable_writable
  idle_write io self server = elim self.outbound [
    | [] ↦ (
      done false,
      record self { write_state = some idle },
      (if io.reregisters then disable_writable c self server else server),
    )
    | m ∷ queue ↦
        let popped = record self { outbound = queue } in
        elim m.code [
          | internal code ↦ (done true, record popped { write_state = some idle }, put_msg m server)
          | external code ↦ (
            done true,
            record popped {
              write_header = record self.write_header {
                code = code;
                response_handler = m.handler;
                msg_id = m.id;
              };
              write_buf = m.body;
              write_state = some writing;
            },
            put_msg (record m { handler = none; body = self.write_buf }) server,
          )
        ]
  ]

  -- The packet in the buffer, if it is not there yet. The inner `none` is an error.
  unfoldable pub marshal : PeerIo → PeerConnection c → Option (Option (PeerConnection c))
  unfolding encrypt_marshal raw_marshal
  marshal io self =
      if self.write_header.is_marshalled
      then some (some self)
      else if self.is_negotiated
      then (do
        (out, hd) ← encrypt_marshal c.aead io.nonce self.write_buf self.key self.write_header
        (elim out [
          | none ↦ some none
          | some buf ↦ some (some (record self { write_buf = buf; write_header = hd }))
        ]))
      else (do
        (buf, hd) ← raw_marshal self.write_buf self.write_header
        some (some (record self { write_buf = buf; write_header = hd })))

  -- After the last byte.
  unfoldable pub finish_packet : PeerIo → PeerConnection c → Hub → PeerConnection c × Hub
  unfolding disable_writable
  finish_packet io self server =
      let negotiated = self.is_negotiated || self.is_acking in
      let self1 = record self {
        write_buf = reset_buffer self.write_buf;
        write_pos = 0;
        write_header = record self.write_header { is_marshalled = false; response_handler = none };
        inbound_handlers = (elim self.write_header.response_handler [
          | none ↦ self.inbound_handlers
          | some handler ↦ insert self.write_header.msg_id handler self.inbound_handlers
        ]);
        is_acking = false;
        is_negotiated = negotiated;
        write_state = some idle;
      } in
      (
        self1,
        (if (length self.outbound == 0 || not negotiated) && io.reregisters
            then disable_writable c self1 server
            else server),
      )

  unfoldable pub after_loop :
      PeerIo
      → Socket
      → PeerConnection c
      → Hub
      → Written × ℕ × Bool × List Room × List ℕ
      → Answer Bool × PeerConnection c × Hub
  unfolding finish_packet
  after_loop io s self server (ending, n, worked, rooms, wire) =
      let self1 = record self {
        stream = some (record s { rooms = rooms; written = wire });
        write_pos = n;
      } in
      elim ending [
        | all_written ↦
            let (self2, server2) = finish_packet io self1 server in (done worked, self2, server2)
        | blocked ↦ (done worked, record self1 { write_state = some writing }, server)
        | aborted ↦ (failed connection_aborted, self1, server)
        | write_failed ↦ (failed (other []), self1, server)
      ]

  unfoldable pub write_packet :
      PeerIo → PeerConnection c → Hub → Option (Answer Bool × PeerConnection c × Hub)
  unfolding marshal write_loop after_loop
  write_packet io self server = do
    ready ← marshal io self
    elim ready [
      | none ↦ some (failed (encryption []), self, server)
      | some self1 ↦ do
        s ← self1.stream
        some (
            after_loop io s self1 server (
              write_loop s.rooms (drop self1.write_pos self1.write_buf) self1.write_pos false
                s.written))
    ]

  unfoldable pub on_writable :
      PeerIo → PeerConnection c → Hub → Option (Answer Bool × PeerConnection c × Hub)
  unfolding idle_write write_packet
  on_writable io self server =
      let taken = record self { write_state = none } in
      elim self.write_state [
        | some idle ↦ some (idle_write io taken server)
        | some writing ↦ write_packet io taken server
        | none ↦ some (failed (other []), taken, server)
      ]
