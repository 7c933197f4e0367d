-- ===== src/Net/Peer.antt =====
-- src/peer_net/connection.rs: the state of a connection to a peer, its making, its queue and its reset. The texts in
-- errors are left empty.
pub mod Handle
pub mod Read
pub mod Write
pub mod Serve
use bullet_ledger.Base.{
  ◌≡◌, ℕ, zero, suc, ◌==◌, Bool, true, false, Option, none, some, List, [], ◌∷◌, ◌++◌, ◌&&◌, not,
  if◌then◌else◌, length, replicate,
}
use bullet_ledger.Header as PacketHeader
use bullet_ledger.Header.{Aead, PacketCode, negotiation_syn, Header, header_len}
use bullet_ledger.Peers.{SocketAddr, NetError, negotiation_failed}
use bullet_ledger.Net.Message as Message
use bullet_ledger.Net.Message.{NetMsg, Handler, external, fill_fd_and_id}
use bullet_ledger.Net.Keys.{Exchange}
use bullet_ledger.Net.Socket.{Socket}
use bullet_ledger.Net.Hub.{Hub, register, deregister, get_buff, put_buff, get_new_msg, put_msg}
use bullet_ledger.Net.Server.{Answer, done, failed, next_deadline}

pub data ReadState : Type 0 where
  reading_prefix : ReadState
  reading : ReadState
  processing : ReadState

pub data WriteState : Type 0 where
  idle : WriteState
  writing : WriteState

pub data Flow : Type 0 where
  continues : Flow
  stops : Flow

-- What the connections take from chacha20poly1305, curve25519-dalek, hkdf and blake3.
pub record Ciphers : Type 1 where
  pub aead : Aead
  pub exchange : Exchange
  pub key_from_slice : List ℕ → aead.Key
  pub blake3 : List ℕ → List ℕ
  pub length-blake3 : (bs : List ℕ) → length (blake3 bs) ≡ 32

-- What an operation draws at random, and whether `reregister` succeeds.
pub record PeerIo : Type 0 where
  pub msg_id : ℕ
  pub header_id : ℕ
  pub salt : List ℕ
  pub nonce : List ℕ
  pub reregisters : Bool

module _ (c : Ciphers) where
  pub record PeerConnection : Type 0 where
    pub stream : Option Socket
    pub token : ℕ
    pub last_deadline : ℕ
    pub addr : Option SocketAddr
    pub remote_pub_key : List ℕ
    pub key : c.aead.Key
    pub is_negotiated : Bool
    pub is_acking : Bool
    pub outbound : List NetMsg
    pub inbound_handlers : List (ℕ × Handler)
    pub read_header : Header Handler
    pub read_state : Option ReadState
    pub read_buf : List ℕ
    pub read_pos : ℕ
    pub read_target : ℕ
    pub write_header : Header Handler
    pub write_state : Option WriteState
    pub write_buf : List ℕ
    pub write_pos : ℕ

  unfoldable pub zero_key : c.aead.Key
  zero_key = c.key_from_slice (replicate 32 0)

  -- `id` and `id'` are drawn for the headers.
  unfoldable pub new : ℕ → ℕ → ℕ → ℕ → Hub → PeerConnection × Hub
  unfolding get_buff zero_key next_deadline
  new id id' idle_timeout now server =
      let (read_buf, server1) = get_buff server in
      let (write_buf, server2) = get_buff server1 in
      (
        record {
          stream = none;
          token = 0;
          last_deadline = next_deadline now idle_timeout;
          addr = none;
          remote_pub_key = replicate 32 0;
          key = zero_key;
          is_negotiated = false;
          is_acking = false;
          outbound = [];
          inbound_handlers = [];
          read_header = PacketHeader.new id;
          read_state = some reading_prefix;
          read_buf = read_buf;
          read_pos = 0;
          read_target = header_len;
          write_header = PacketHeader.new id';
          write_state = some idle;
          write_buf = write_buf;
          write_pos = 0;
        },
        server2,
      )

  unfoldable pub initialize :
      Socket → SocketAddr → Option (List ℕ) → ℕ → PeerConnection → Hub → PeerConnection × Hub
  unfolding get_buff
  initialize stream addr pub_key now self server =
      let (write_buf, server1) = get_buff server in
      let (read_buf, server2) = get_buff server1 in
      (
        record self {
          stream = some stream;
          token = stream.token;
          last_deadline = now;
          addr = some addr;
          remote_pub_key = elim pub_key [ some key ↦ key | none ↦ self.remote_pub_key ];
          read_state = some reading_prefix;
          read_buf = read_buf;
          write_state = some idle;
          write_buf = write_buf;
        },
        server2,
      )

  -- The messages go back in order, each on top of the last.
  unfoldable pub put_msgs : List NetMsg → Hub → Hub
  put_msgs [] server = server
  put_msgs (m ∷ ms) server = put_msgs ms (put_msg m server)

  unfoldable pub reset : PeerConnection → Hub → PeerConnection × Hub
  unfolding put_msgs put_buff deregister zero_key
  reset self server =
      let server1 : Hub = (elim self.stream [
        | none ↦ server
        | some s ↦ deregister s.token server
      ]) in
      let server2 = put_buff self.write_buf (put_buff self.read_buf server1) in
      (
        record {
          stream = none;
          token = 0;
          last_deadline = self.last_deadline;
          addr = none;
          remote_pub_key = replicate 32 0;
          key = zero_key;
          is_negotiated = false;
          is_acking = false;
          outbound = [];
          inbound_handlers = [];
          read_header = PacketHeader.reset self.read_header;
          read_state = none;
          read_buf = [];
          read_pos = 0;
          read_target = 0;
          write_header = PacketHeader.reset self.write_header;
          write_state = none;
          write_buf = [];
          write_pos = 0;
        },
        put_msgs self.outbound server2,
      )

  unfoldable pub enable_writable : PeerConnection → Hub → Hub
  unfolding register
  enable_writable self server = register self.token true server

  unfoldable pub disable_writable : PeerConnection → Hub → Hub
  unfolding register
  disable_writable self server = register self.token false server

  unfoldable pub enqueue_msg :
      PeerIo → NetMsg → PeerConnection → Hub → Option NetMsg × PeerConnection × Hub
  unfolding enable_writable
  enqueue_msg io m self server =
      let empty = length self.outbound == 0 in
      if empty && not io.reregisters then (some m, self, server) else (
        none,
        record self { outbound = self.outbound ++ m ∷ [] },
        (if empty then enable_writable self server else server),
      )

  -- With what came back of the message.
  unfoldable pub begun :
      PeerIo → Option NetMsg × PeerConnection × Hub → Answer (Unit {0}) × PeerConnection × Hub
  unfolding put_msg
  begun io (some m, self, server) =
      (failed negotiation_failed, self, put_msg (Message.reset io.msg_id m) server)
  begun io (none, self, server) = (done tt, record self { remote_pub_key = io.salt }, server)

  unfoldable pub initiate_negotiation :
      PeerIo → PeerConnection → Hub → Answer (Unit {0}) × PeerConnection × Hub
  unfolding get_new_msg fill_fd_and_id enqueue_msg begun
  initiate_negotiation io self server =
      let (m, server1) = get_new_msg io.msg_id server in
      let m1 = fill_fd_and_id io.msg_id self.token m in
      let m2 = record m1 {
        code = external negotiation_syn;
        body = m1.body ++ (server.pub_key ++ io.salt);
      } in
      begun io (enqueue_msg io m2 (record self { is_negotiated = false }) server1)
