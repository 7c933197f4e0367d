-- ===== src/Net/Rpc.antt =====
-- src/rpc/connection.rs: the connections of the RPC. An outer `none` is a panic; the texts in errors are left empty.
pub mod Loops
pub mod Request
use bullet_ledger.Base.{
  ℕ, zero, suc, ◌+◌, ◌-◌, ◌^◌, ◌==◌, Bool, true, false, Option, none, some, List, [], ◌∷◌, ◌++◌,
  if◌then◌else◌, ltb, leb, length, take, drop, guard, get_or, ◌>>=◌, ◌>>◌,
}
use bullet_ledger.Base.Slices.{slice, resize}
use bullet_ledger.Base.Words.{from_le_bytes}
use bullet_ledger.Header.{new_buffer}
use bullet_ledger.Peers.{SocketAddr, NetError, connection_aborted, other}
use bullet_ledger.Net.Message.{NetMsg, NetManCode, adds_peer, removes_peer, fill_for_internal}
use bullet_ledger.Net.Socket.{Socket, Got, got, would_block, broken, read, write}
use bullet_ledger.Net.Hub.{Hub, deregister, get_buff, put_buff, collect_internal, enqueue_internal}
use bullet_ledger.Net.Server.{Answer, done, failed}

pub data RpcCodes : Type 0 where
  no_request : RpcCodes
  add_request : RpcCodes
  remove_request : RpcCodes

unfoldable pub from_byte : ℕ → RpcCodes
from_byte b = if b == 1 then add_request else (if b == 2 then remove_request else no_request)

abbrev pub rpc_header_len : ℕ
rpc_header_len = 1 + 8

-- `NETWORKER` and `RPC`
abbrev pub networker_id : ℕ
networker_id = 707070

abbrev pub rpc_id : ℕ
rpc_id = 727272

pub data RpcReadStates : Type 0 where
  reading_header : RpcReadStates
  reading_body : RpcReadStates
  processing : RpcReadStates

pub data RpcWriteStates : Type 0 where
  idle : RpcWriteStates
  writing : RpcWriteStates

pub record RpcConn : Type 0 where
  pub stream : Option Socket
  pub token : ℕ
  pub last_deadline : ℕ
  pub addr : Option SocketAddr
  pub code : Option RpcCodes
  pub read_state : Option RpcReadStates
  pub read_buffer : List ℕ
  pub read_pos : ℕ
  pub outbound : List (List ℕ)
  pub write_state : Option RpcWriteStates
  pub write_buffer : List ℕ
  pub write_pos : ℕ

unfoldable pub new : ℕ → Hub → RpcConn × Hub
unfolding get_buff
new now server =
    let (read_buffer, server1) = get_buff server in
    (
      record {
        stream = none;
        token = 0;
        last_deadline = now;
        addr = none;
        code = some no_request;
        read_state = some reading_header;
        read_buffer = read_buffer;
        read_pos = 0;
        outbound = [];
        write_state = some idle;
        write_buffer = new_buffer;
        write_pos = 0;
      },
      server1,
    )

unfoldable pub put_buffs : List (List ℕ) → Hub → Hub
put_buffs [] server = server
put_buffs (b ∷ bs) server = put_buffs bs (put_buff b server)

unfoldable pub reset : RpcConn → Hub → Option (RpcConn × Hub)
unfolding deregister put_buff put_buffs
reset self server = do
  s ← self.stream
  let server1 = put_buff self.write_buffer (put_buff self.read_buffer (deregister s.token server))
  some (
    record self {
      stream = none;
      token = 0;
      addr = none;
      code = none;
      read_state = some reading_header;
      read_buffer = [];
      read_pos = 0;
      outbound = [];
      write_state = some idle;
      write_buffer = [];
      write_pos = 0;
    },
    put_buffs self.outbound server1,
  )

unfoldable pub initialize : Socket → SocketAddr → ℕ → RpcConn → Hub → RpcConn × Hub
unfolding get_buff
initialize stream addr now self server =
    let (write_buffer, server1) = get_buff server in
    let (read_buffer, server2) = get_buff server1 in
    (
      record self {
        token = stream.token;
        addr = some addr;
        stream = some stream;
        write_buffer = write_buffer;
        read_buffer = read_buffer;
        last_deadline = now;
      },
      server2,
    )

-- The message comes back with a buffer of the server.
unfoldable pub enqueue_msg : NetMsg → RpcConn → Hub → NetMsg × RpcConn × Hub
unfolding get_buff
enqueue_msg m self server =
    let (body, server1) = get_buff server in
    (record m { body = body }, record self { outbound = self.outbound ++ m.body ∷ [] }, server1)

-- How a turn of a loop ends: with the next one, with the loop, or with an error.
pub data Turn : Type 0 where
  goes_on : Turn
  leaves : Turn
  fails : NetError → Turn

-- The end of a header.
unfoldable pub end_header : RpcConn → Option RpcConn
unfolding from_byte
end_header self = do
  len ← slice 1 8 self.read_buffer
  guard (ltb (from_le_bytes len) (2 ^ 63))
  some (record self {
    code = some (from_byte (get_or self.read_buffer 0 0));
    read_buffer = resize (from_le_bytes len) 0 self.read_buffer;
    read_pos = 0;
    read_state = some reading_body;
  })

-- The buffer with the bytes that were read at `read_pos`.
unfoldable pub received : List ℕ → RpcConn → RpcConn
received bs self = record self {
  read_buffer =
      take self.read_pos self.read_buffer
      ++ (bs ++ drop (self.read_pos + length bs) self.read_buffer);
  read_pos = self.read_pos + length bs;
}

-- A read that finds nothing leaves the loop, and no state. The Boolean says whether there was work.
unfoldable pub header_turn : Got (List ℕ) → RpcConn → Option (Turn × Bool × RpcConn)
unfolding end_header received
header_turn would_block self = some (leaves, false, self)
header_turn broken self = some (fails (other []), false, self)
header_turn (got bs) self =
    let self1 = received bs self in
    if length bs == 0
    then some (fails connection_aborted, false, self)
    else if ltb self1.read_pos rpc_header_len
    then some (leaves, true, record self1 { read_state = some reading_header })
    else (do self2 ← end_header self1; some (goes_on, true, self2))

unfoldable pub body_turn : Got (List ℕ) → RpcConn → Option (Turn × Bool × RpcConn)
unfolding received
body_turn would_block self = some (leaves, false, self)
body_turn broken self = some (fails (other []), false, self)
body_turn (got bs) self =
    let self1 = received bs self in
    if length bs == 0
    then some (fails connection_aborted, false, self)
    else if ltb self1.read_pos (length self1.read_buffer)
    then some (leaves, true, record self1 { read_state = some reading_body })
    else some (goes_on, true, record self1 { read_pos = 0; read_state = some processing })

-- `id` and `id'` are drawn for the message.
unfoldable pub request : ℕ → ℕ → NetManCode → RpcConn → Hub → Hub
unfolding collect_internal enqueue_internal fill_for_internal
request id id' code self server =
    let (m, server1) = collect_internal id networker_id server in
    enqueue_internal networker_id (fill_for_internal id' rpc_id code self.read_buffer m) server1

unfoldable pub process_turn : ℕ → ℕ → RpcConn → Hub → Turn × Bool × RpcConn × Hub
unfolding request
process_turn id id' self server =
    let next = record self { code = none; read_pos = 0; read_state = some reading_header } in
    elim self.code [
      | some add_request ↦ (goes_on, true, next, request id id' adds_peer self server)
      | some remove_request ↦ (goes_on, true, next, request id id' removes_peer self server)
      | some no_request ↦ (goes_on, false, next, server)
      | none ↦ (goes_on, false, next, server)
    ]

-- The match of `on_readable`, on the state that it took.
unfoldable pub read_turn : ℕ → ℕ → RpcConn → Hub → Option (Turn × Bool × RpcConn × Hub)
unfolding header_turn body_turn process_turn read
read_turn id id' self server =
    let taken = record self { read_state = none } in
    elim self.read_state [
      | none ↦ some (fails (other []), false, taken, server)
      | some reading_header ↦ do
        s ← self.stream
        guard (leb self.read_pos rpc_header_len)
        let buf =
            (if ltb (length self.read_buffer) rpc_header_len
              then resize rpc_header_len 0 self.read_buffer
              else self.read_buffer)
        let (answer, s') = read (rpc_header_len - self.read_pos) s
        (turn, worked, self1) ←
            header_turn answer (record taken { stream = some s'; read_buffer = buf })
        some (turn, worked, self1, server)
      | some reading_body ↦ do
        s ← self.stream
        guard (leb self.read_pos (length self.read_buffer))
        let (answer, s') = read (length self.read_buffer - self.read_pos) s
        (turn, worked, self1) ← body_turn answer (record taken { stream = some s' })
        some (turn, worked, self1, server)
      | some processing ↦ some (process_turn id id' taken server)
    ]
