-- ===== src/Net/Peer/Read.antt =====
-- src/peer_net/connection.rs: the reading side of a connection. An outer `none` is a panic.
pub mod Chunks
pub mod Rounds
use bullet_ledger.Base.{
  ◌≡◌, ℕ, zero, suc, ◌+◌, ◌-◌, ◌^◌, ◌==◌, ◌||◌, ◌&&◌, not, Bool, true, false, Option, none, some,
  List, [], ◌∷◌, ◌++◌, if◌then◌else◌, ltb, leb, length, take, drop, replicate, guard, ◌>>=◌, ◌>>◌,
}
use bullet_ledger.Base.Slices.{slice, resize}
use bullet_ledger.Base.Assoc.{lookup, insert, remove}
use bullet_ledger.Header.{
  PacketCode, negotiation_syn, negotiation_ack, header_len, prefix_len, associated, take_prefix,
  raw_unmarshal, encrypt_unmarshal,
}
use bullet_ledger.Peers.{NetError, connection_aborted, unauthorized, decryption, other}
use bullet_ledger.Net.Message.{NetMsg, Handler}
use bullet_ledger.Net.Socket.{Socket, Got, got, would_block, broken, read}
use bullet_ledger.Net.Hub.{Hub, put_msg}
use bullet_ledger.Net.Server.{Answer, done, failed}
use bullet_ledger.Net.Peer.{
  Ciphers, PeerIo, PeerConnection, Flow, continues, stops, reading_prefix, reading, processing,
  WriteState, idle, writing, enable_writable, enqueue_msg,
}
use bullet_ledger.Net.Peer.Handle.{HandlerRes, reads, writes, nothing, run_handler, code_switcher}

-- The bytes that are read into a buffer at `pos`.
unfoldable pub filled : ℕ → List ℕ → List ℕ → List ℕ
filled pos bs buf = take pos buf ++ (bs ++ drop (pos + length bs) buf)

-- `self.write_state == Some(WriteState::Idle)`
unfoldable pub is_idle : Option WriteState → Bool
is_idle (some idle) = true
is_idle (some writing) = false
is_idle none = false

unfoldable pub is_negotiation : PacketCode → Bool
is_negotiation negotiation_syn = true
is_negotiation negotiation_ack = true
is_negotiation _ = false

module _ (c : Ciphers) where
  -- With at least a prefix of bytes in the buffer. `resize` panics past the largest capacity.
  unfoldable pub end_prefix : PeerConnection c → Option (Answer Flow × PeerConnection c)
  unfolding take_prefix
  end_prefix self = do
    (len, hd) ← take_prefix self.read_buf self.read_header
    guard (ltb len (2 ^ 63))
    some (
      done continues,
      record self {
        read_header = hd;
        read_buf = replicate len 0;
        read_pos = 0;
        read_target = len;
        read_state = some reading;
      },
    )

  unfoldable pub after_prefix :
      PeerConnection c → Got (List ℕ) → Option (Answer Flow × PeerConnection c)
  unfolding end_prefix filled
  after_prefix self would_block =
      some (done stops, record self { read_state = some reading_prefix })
  after_prefix self broken = some (failed (other []), self)
  after_prefix self (got bs) =
      let self1 = record self {
        read_buf = filled 0 bs self.read_buf;
        read_pos = self.read_pos + length bs;
      } in
      if length bs == 0
      then some (failed connection_aborted, self)
      else if ltb self1.read_pos prefix_len
      then some (done continues, record self1 { read_state = some reading_prefix })
      else end_prefix self1

  unfoldable pub read_prefix : PeerConnection c → Option (Answer Flow × PeerConnection c)
  unfolding after_prefix read
  read_prefix self = do
    s ← self.stream
    let (answer, s') = read prefix_len s
    let buf =
        (if ltb (length self.read_buf) prefix_len
          then resize prefix_len 0 self.read_buf
          else self.read_buf)
    after_prefix (record self { stream = some s'; read_buf = buf }) answer

  -- With the whole packet in the buffer; a packet that is encrypted is decrypted in place.
  unfoldable pub end_body : PeerConnection c → Option (Answer Flow × PeerConnection c)
  unfolding encrypt_unmarshal raw_unmarshal
  end_body self =
      if self.is_negotiated
      then (do
        unmarshalled ← encrypt_unmarshal c.aead self.read_buf self.key self.read_header
        (elim unmarshalled [
          | none ↦ some (failed (decryption []), self)
          | some hd ↦ do
            plain ←
                c.aead.decrypt self.key self.read_header.nonce associated self.read_buf
                  self.read_header.tag
            some (
              done continues,
              record self { read_header = hd; read_buf = plain; read_state = some processing },
            )
        ]))
      else (do
        hd ← raw_unmarshal self.read_buf self.read_header
        some (done continues, record self { read_header = hd; read_state = some processing }))

  unfoldable pub after_body :
      PeerConnection c → Got (List ℕ) → Option (Answer Flow × PeerConnection c)
  unfolding end_body filled
  after_body self would_block = some (done stops, record self { read_state = some reading })
  after_body self broken = some (failed (other []), self)
  after_body self (got bs) =
      let self1 = record self {
        read_buf = filled self.read_pos bs self.read_buf;
        read_pos = self.read_pos + length bs;
      } in
      if length bs == 0
      then some (failed connection_aborted, self)
      else if ltb self1.read_pos self1.read_target
      then some (done continues, record self1 { read_state = some reading })
      else end_body self1

  unfoldable pub read_body : PeerConnection c → Option (Answer Flow × PeerConnection c)
  unfolding after_body read
  read_body self = do
    s ← self.stream
    guard (leb self.read_pos self.read_target && leb self.read_target (length self.read_buf))
    let (answer, s') = read (self.read_target - self.read_pos) s
    after_body (record self { stream = some s' }) answer

  -- The message of a handler joins the queue, or goes back to the server.
  unfoldable pub answer_packet : PeerIo → NetMsg → PeerConnection c → Hub → PeerConnection c × Hub
  unfolding enqueue_msg put_msg enable_writable is_idle
  answer_packet io m self server =
      let (back, self1, server1) = enqueue_msg c io m self server in
      elim back [
        | some m' ↦ (self1, put_msg m' server1)
        | none ↦ (
          self1,
          if is_idle self1.write_state && io.reregisters
              then enable_writable c self1 server1
              else server1,
        )
      ]

  unfoldable pub after_handler :
      PeerIo → Answer HandlerRes × PeerConnection c × Hub → Answer Flow × PeerConnection c × Hub
  unfolding answer_packet
  after_handler io (res, self, server) =
      let cleared = record self {
        read_buf = replicate prefix_len 0;
        read_pos = 0;
        read_target = prefix_len;
      } in
      let ready = record cleared { read_state = some reading_prefix } in
      elim res [
        | failed e ↦ (failed e, cleared, server)
        | done nothing ↦ (done stops, ready, server)
        | done (reads id handler) ↦ (
          done stops,
          record ready { inbound_handlers = insert id handler self.inbound_handlers },
          server,
        )
        | done (writes m) ↦
            let (self1, server1) = answer_packet io m cleared server in
            (done stops, record self1 { read_state = some reading_prefix }, server1)
      ]

  unfoldable pub process_packet :
      PeerIo → PeerConnection c → Hub → Option (Answer Flow × PeerConnection c × Hub)
  unfolding run_handler code_switcher after_handler is_negotiation
  process_packet io self server =
      let self1 = record self { read_pos = header_len } in
      let id = self.read_header.msg_id in
      let handled : Option (Answer HandlerRes × PeerConnection c × Hub) =
        (elim (lookup id self.inbound_handlers) [
          | some handler ↦
              run_handler c handler
                (record self1 { inbound_handlers = remove id self.inbound_handlers }) server
          | none ↦ code_switcher c io self1 server
        ]) in
      if not self.is_negotiated && not (is_negotiation self.read_header.code)
      then some (failed unauthorized, self1, server)
      else (do res ← handled; some (after_handler io res))

  -- The match of `on_readable`, on the state that it took.
  unfoldable pub read_step :
      PeerIo → PeerConnection c → Hub → Option (Answer Flow × PeerConnection c × Hub)
  unfolding read_prefix read_body process_packet
  read_step io self server =
      let taken = record self { read_state = none } in
      elim self.read_state [
        | none ↦ some (failed (other []), taken, server)
        | some reading_prefix ↦ do (flow, self1) ← read_prefix taken; some (flow, self1, server)
        | some reading ↦ do (flow, self1) ← read_body taken; some (flow, self1, server)
        | some processing ↦ process_packet io taken server
      ]

  -- What a connection answers when the loop ends.
  pub data Ending : Type 0 where
    panics : Ending
    returns : Answer Bool → PeerConnection c → Hub → Ending

  -- `none`: the rounds given were not enough.
  unfoldable pub read_loop : ℕ → PeerIo → PeerConnection c → Hub → Option Ending
  unfolding read_step
  read_loop zero io self server = none
  read_loop (suc rounds) io self server = elim (read_step io self server) [
    | none ↦ some panics
    | some (failed e, self1, server1) ↦ some (returns (failed e) self1 server1)
    | some (done stops, self1, server1) ↦ some (returns (done true) self1 server1)
    | some (done continues, self1, server1) ↦ read_loop rounds io self1 server1
  ]
