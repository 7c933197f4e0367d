-- ===== src/Net/Peer/Handle.antt =====
-- src/peer_net/connection.rs (the negotiation), src/peer_net/ping_pong.rs and src/peer_net/handlers.rs: what a
-- connection does with a packet. An outer `none` is a panic.
pub mod Answers
pub mod Agree
use bullet_ledger.Base.{
  ◌≡◌, ℕ, ◌+◌, ◌==◌, ◌&&◌, Bool, true, false, Option, none, some, List, [], ◌∷◌, ◌++◌,
  if◌then◌else◌, length, drop, ◌>>=◌,
}
use bullet_ledger.Base.Slices.{slice}
use bullet_ledger.Header.{
  PacketCode, no_packet, ping, negotiation_syn, negotiation_ack, social, blockchain, header_len,
  associated,
}
use bullet_ledger.Peers.{unauthorized, encryption, decryption, other}
use bullet_ledger.Net.Message.{NetMsg, Handler, handle_pong, external, fill_fd_and_id}
use bullet_ledger.Net.Keys.{ecdh_shared_secret, hkdf_derive_key}
use bullet_ledger.Net.Hub.{Hub, get_new_msg, collect_internal, enqueue_internal}
use bullet_ledger.Net.Server.{Answer, done, failed}
use bullet_ledger.Net.Peer.{Ciphers, PeerIo, PeerConnection, reading_prefix, idle, enable_writable}

pub data HandlerRes : Type 0 where
  reads : ℕ → Handler → HandlerRes
  writes : NetMsg → HandlerRes
  nothing : HandlerRes

abbrev pub blockchain_id : ℕ
blockchain_id = 717171

abbrev pub social_id : ℕ
social_id = 737373

unfoldable pub bytes_equal : List ℕ → List ℕ → Bool
bytes_equal [] [] = true
bytes_equal [] (y ∷ ys) = false
bytes_equal (x ∷ xs) [] = false
bytes_equal (x ∷ xs) (y ∷ ys) = let rest = bytes_equal xs ys in x == y && rest

module _ (c : Ciphers) where
  -- `Hasher` with two updates.
  abbrev hash2 : List ℕ → List ℕ → List ℕ
  hash2 u v = c.blake3 (u ++ v)

  -- The key of a secret and a salt.
  unfoldable pub session_key : List ℕ → List ℕ → List ℕ → c.aead.Key
  unfolding ecdh_shared_secret hkdf_derive_key
  session_key priv_key remote final_salt = c.key_from_slice (
      hkdf_derive_key c.exchange (ecdh_shared_secret c.exchange priv_key remote) associated
        final_salt)

  -- The next `n` bytes of the packet.
  unfoldable pub take_next : ℕ → PeerConnection c → Option (List ℕ × PeerConnection c)
  take_next n self = do
    bs ← slice self.read_pos n self.read_buf
    some (bs, record self { read_pos = self.read_pos + n })

  unfoldable pub handle_syn :
      PeerIo → PeerConnection c → Hub → Option (Answer HandlerRes × PeerConnection c × Hub)
  unfolding take_next session_key get_new_msg fill_fd_and_id
  handle_syn io self server = do
    (remote, self1) ← take_next 32 (record self { read_pos = header_len })
    (remote_salt, self2) ← take_next 32 (record self1 { remote_pub_key = remote })
    let final_salt = hash2 remote_salt io.salt
    let key = session_key server.priv_key remote final_salt
    let (m, server1) = get_new_msg io.msg_id server
    let m1 = fill_fd_and_id io.msg_id self.token m
    let self3 = record self2 { key = key }
    elim (c.aead.encrypt key io.nonce associated final_salt) [
      | none ↦ some (failed (encryption []), self3, server1)
      | some (sealed, tag) ↦ some (
        done (
            writes (record m1 {
              body = m1.body ++ (server.pub_key ++ (io.salt ++ (io.nonce ++ (tag ++ sealed))));
              code = external negotiation_ack;
            })),
        record self3 { is_acking = true },
        server1,
      )
    ]

  unfoldable pub handle_ack :
      PeerIo → PeerConnection c → Hub → Option (Answer HandlerRes × PeerConnection c × Hub)
  unfolding take_next session_key enable_writable bytes_equal
  handle_ack io self server = do
    (remote, self1) ← take_next 32 (record self { read_pos = header_len })
    (remote_salt, self2) ← take_next 32 (record self1 { remote_pub_key = remote })
    let final_salt = hash2 self.remote_pub_key remote_salt
    let key = session_key server.priv_key remote final_salt
    (nonce, self3) ← take_next 12 (record self2 { key = key })
    (tag, self4) ← take_next 16 self3
    (sealed, self5) ← take_next 32 self4
    let self6 = record self5 { read_header = record self5.read_header { nonce = nonce; tag = tag } }
    elim (c.aead.decrypt key nonce associated sealed tag) [
      | none ↦ some (failed (decryption []), self6, server)
      | some opened ↦
          if bytes_equal opened final_salt
          then some (
            done nothing,
            record self6 {
              is_negotiated = true;
              read_state = some reading_prefix;
              write_state = some idle;
            },
            (if io.reregisters then enable_writable c self6 server else server),
          )
          else some (failed unauthorized, self6, server)
    ]

  unfoldable pub negotiation_as :
      PacketCode
      → PeerIo
      → PeerConnection c
      → Hub
      → Option (Answer HandlerRes × PeerConnection c × Hub)
  unfolding handle_syn handle_ack
  negotiation_as negotiation_syn io self server = handle_syn io self server
  negotiation_as _ io self server = handle_ack io self server

  unfoldable pub handle_negotiation :
      PeerIo → PeerConnection c → Hub → Option (Answer HandlerRes × PeerConnection c × Hub)
  unfolding negotiation_as
  handle_negotiation io self server = negotiation_as self.read_header.code io self server

  unfoldable pub handle_ping :
      PeerIo → PeerConnection c → Hub → Option (Answer HandlerRes × PeerConnection c × Hub)
  unfolding take_next bytes_equal get_new_msg fill_fd_and_id
  handle_ping io self server = do
    (word, self1) ← take_next 4 self
    let (m, server1) = get_new_msg io.msg_id server
    let m1 = fill_fd_and_id io.msg_id self.token m
    (if bytes_equal word (b'P' ∷ b'i' ∷ b'n' ∷ b'g' ∷ [])
        then some (
          done (
              writes (record m1 {
                id = self.read_header.msg_id;
                code = external ping;
                body = m1.body ++ (b'P' ∷ b'o' ∷ b'n' ∷ b'g' ∷ []);
              })),
          self1,
          server1,
        )
        else some (failed (other []), self1, server))

  unfoldable pub run_handler :
      Handler → PeerConnection c → Hub → Option (Answer HandlerRes × PeerConnection c × Hub)
  unfolding take_next bytes_equal
  run_handler handle_pong self server = do
    (word, self1) ← take_next 4 self
    (if bytes_equal word (b'P' ∷ b'o' ∷ b'n' ∷ b'g' ∷ [])
        then some (done nothing, self1, server)
        else some (failed (other []), self1, server))

  -- The packet goes to another thread whole, and the message's old body stays as the read buffer.
  unfoldable pub forward_2 :
      PeerIo → ℕ → PeerConnection c → Hub → Answer HandlerRes × PeerConnection c × Hub
  unfolding collect_internal enqueue_internal
  forward_2 io token self server =
      let (m, server1) = collect_internal io.msg_id token server in
      let m1 = record m { body = self.read_buf; code = external self.read_header.code } in
      (failed (other []), record self { read_buf = m.body }, enqueue_internal token m1 server1)

  unfoldable pub switch :
      PacketCode
      → PeerIo
      → PeerConnection c
      → Hub
      → Option (Answer HandlerRes × PeerConnection c × Hub)
  unfolding handle_ping handle_negotiation forward_2
  switch ping io self server = handle_ping io self server
  switch negotiation_syn io self server = handle_negotiation io self server
  switch negotiation_ack io self server = handle_negotiation io self server
  switch blockchain io self server = some (forward_2 io blockchain_id self server)
  switch social io self server = some (forward_2 io social_id self server)
  switch no_packet io self server = some (failed (other []), self, server)

  unfoldable pub code_switcher :
      PeerIo → PeerConnection c → Hub → Option (Answer HandlerRes × PeerConnection c × Hub)
  unfolding switch
  code_switcher io self server = switch self.read_header.code io self server
