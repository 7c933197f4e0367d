-- ===== src/Examples/Network.antt =====
-- A node's network thread at concrete inputs.
use native.Mathlib.Nat.{mul_comm, mul-one}
use mathlib.Core.List.{Perm}
use bullet_ledger.Base.{
  ℕ, ◌≡◌, ◌+◌, ◌*◌, ◌≤◌, refl, sym, ap, ◌∙◌, true, false, some, none, List, [], ◌∷◌, ◌++◌,
  replicate, drop, arith, get_or,
}
use bullet_ledger.Base.Assoc.{lookup, insert}
use bullet_ledger.Base.Slices.{resize, length-resize}
use bullet_ledger.Header.{Header, negotiation_syn}
use bullet_ledger.Peers.{v4, PeerMan}
use bullet_ledger.Net.Message.{NetMsg, Handler, internal, no_action, adds_peer}
use bullet_ledger.Net.Socket.{bytes, blocks, accepts, full}
use bullet_ledger.Net.Keys.{
  Exchange, load_keys, generate_keypair, clamp_scalar_bytes, load_keys-again,
}
use bullet_ledger.Net.Hub.{Hub, try_push, refuse, flush_round, internal_try_push}
use bullet_ledger.Net.Hub.Order.{line, flush-keeps_order}
use bullet_ledger.Net.Hub.States.{AllFull}
use bullet_ledger.Net.Hub.Consumers.{flush-loses_nothing}
use bullet_ledger.Net.Hub.Spins.{flush-spins}
use bullet_ledger.Net.Server.{Server, done, handle_timeouts}
use bullet_ledger.Net.Server.Events.{Stream, handle_new}
use bullet_ledger.Net.Server.Expiry.{alive}
use bullet_ledger.Net.Server.Poll.{Ready, Handlers, listener_id, poll_turn}
use bullet_ledger.Net.Server.Turn.{IsTimed, KeepTable}
use bullet_ledger.Net.Server.Life.{Reach, here, later, turn, Reach-Timed, Reach-timeouts}
use bullet_ledger.Net.Peer.{
  Ciphers, PeerIo, PeerConnection, reading_prefix, writing, initiate_negotiation,
}
use bullet_ledger.Net.Peer.Handle.{writes, nothing, handle_syn, handle_ack}
use bullet_ledger.Net.Peer.Handle.Agree.{negotiation-agrees}
use bullet_ledger.Net.Peer.Read.{Ending, process_packet, read_loop}
use bullet_ledger.Net.Peer.Read.Rounds.{rounds_left, read_loop-ends}
use bullet_ledger.Net.Peer.Write.{write_packet, marshal}
use bullet_ledger.Net.Peer.Write.Wire.{stream_bytes, Sent, write_packet-sends}
use bullet_ledger.Net.Peer.Serve.{peer_connection, short_negotiation-panics}
use bullet_ledger.Net.Manager.{change_peers, handle_internal}
use bullet_ledger.Net.Rpc as Rpc
use bullet_ledger.Net.Rpc.{RpcConn, add_request, networker_id, request}
use bullet_ledger.Net.Rpc.Request.{request-adds_others}
use bullet_ledger.Examples.Packets.{plain_text}

-- Points and scalars are numbers.
abbrev numbers : Exchange
numbers = record {
  Scalar = ℕ;
  MontgomeryPoint = ℕ;
  from_bytes_mod_order = λ bs. get_or bs 0 0;
  from_bytes = λ bs. get_or bs 0 0;
  to_bytes = λ p. p ∷ replicate 31 0;
  base_point = 1;
  mul = λ s p. s * p;
  expand = λ salt secret info. salt;
  from_bytes-to_bytes = λ p. refl;
  length-to_bytes = λ p. refl;
  mul-mul = λ s t. ap (λ k. s * k) (mul-one t) ∙ (mul_comm s t ∙ ap (λ k. t * k) (sym (mul-one s)));
}

abbrev ciphers : Ciphers
ciphers = record {
  aead = plain_text;
  exchange = numbers;
  key_from_slice = λ bs. tt;
  blake3 = λ bs. resize 32 0 bs;
  length-blake3 = λ bs. length-resize 32 0 bs;
}

abbrev note_to : ℕ → NetMsg
note_to id = record {
  id = id;
  from_code = 0;
  stream_token = 0;
  addr = none;
  pub_key = none;
  code = internal no_action;
  body = [];
  handler = none;
}

-- Thread 1 has a full link and thread 2 has room; 3 is unknown.
abbrev hub : Hub
hub = record {
  registry = [];
  pub_key = replicate 32 1;
  priv_key = replicate 32 2;
  buffs = [];
  net_msgs = [];
  internal_msgs = (1, note_to 5) ∷ ((2, note_to 6) ∷ ((3, note_to 7) ∷ ((1, note_to 8) ∷ [])));
  to_internals =
      (1, record { capacity = 1; taken = []; sent = note_to 4 ∷ []; used = [] })
      ∷ ((2, record { capacity = 4; taken = []; sent = []; used = [] }) ∷ []);
}

flush-keeps_order_example :
    (s' : Hub) × (internal_try_push (replicate 5 0) hub ≡ some s')
    × ((t : ℕ)
        → line t s'.to_internals s'.internal_msgs ≡ line t hub.to_internals hub.internal_msgs)
    × AllFull s'.internal_msgs s'.to_internals
flush-keeps_order_example = flush-keeps_order 5 hub (omega arith) (
  ((λ e. ground (arith, e)), ((λ e. ground (arith, e)), ((λ e. ground (arith, e)), tt))),
  (
    ((λ e. ground (arith, e)), ((λ e. ground (arith, e)), tt)),
    (((λ e. ground (arith, e)), tt), (tt, tt)),
  ),
)

-- Thread 1 takes a message while the queue is flushed, and none of its messages is lost.
abbrev flushed : Hub
flushed = record hub {
  net_msgs = note_to 7 ∷ [];
  internal_msgs = (1, note_to 8) ∷ [];
  to_internals =
      (1, record { capacity = 1; taken = note_to 4 ∷ []; sent = note_to 5 ∷ []; used = [] })
      ∷ ((2, record { capacity = 4; taken = []; sent = note_to 6 ∷ []; used = [] }) ∷ []);
}

hub_flushes : internal_try_push (1 ∷ (0 ∷ (0 ∷ (0 ∷ (0 ∷ []))))) hub ≡ some flushed
unfolding internal_try_push lookup insert flush_round try_push refuse
hub_flushes = refl

flush-loses_nothing_example :
    Perm
      (line 1 flushed.to_internals flushed.internal_msgs)
      (line 1 hub.to_internals hub.internal_msgs)
flush-loses_nothing_example =
    flush-loses_nothing (1 ∷ (0 ∷ (0 ∷ (0 ∷ (0 ∷ []))))) hub flushed hub_flushes 1

-- Both threads have full links.
abbrev busy_hub : Hub
busy_hub = record hub {
  internal_msgs = (1, note_to 5) ∷ ((2, note_to 6) ∷ []);
  to_internals =
      (1, record { capacity = 1; taken = []; sent = note_to 4 ∷ []; used = [] })
      ∷ ((2, record { capacity = 1; taken = []; sent = note_to 3 ∷ []; used = [] }) ∷ []);
}

flush-spins_example : internal_try_push (0 ∷ (0 ∷ (1 ∷ (0 ∷ (0 ∷ (0 ∷ [])))))) busy_hub ≡ none
unfolding lookup
flush-spins_example =
    flush-spins 3 1 2 (note_to 5) (note_to 6)
      (record { capacity = 1; taken = []; sent = note_to 4 ∷ []; used = [] }) busy_hub refl
      (λ e. ground (arith, e)) (λ e. ground (arith, e)) refl refl (omega arith)
      (record { capacity = 1; taken = []; sent = note_to 3 ∷ []; used = [] }, refl, refl)

load_keys_example :
    (load_keys numbers
      (replicate 32 3)
      (record (load_keys numbers (replicate 32 9) (record { bytes = []; cursor = 0 })).1 {
        cursor = 0;
      })).0
    ≡ (load_keys numbers (replicate 32 9) (record { bytes = []; cursor = 0 })).0
load_keys_example = load_keys-again numbers (replicate 32 9) (replicate 32 3) [] refl

abbrev io : PeerIo
io = record {
  msg_id = 21;
  header_id = 22;
  salt = replicate 32 4;
  nonce = replicate 12 6;
  reregisters = true;
}

abbrev idle_hub : Hub
idle_hub = record {
  registry = [];
  pub_key = 8 ∷ replicate 31 0;
  priv_key = replicate 31 8 ++ (72 ∷ []);
  buffs = [];
  net_msgs = [];
  internal_msgs = [];
  to_internals = [];
}

abbrev header : Header Handler
header = record {
  code = negotiation_syn;
  response_handler = none;
  msg_id = 3;
  nonce = replicate 12 0;
  tag = replicate 16 0;
  is_marshalled = true;
}

-- A connection that has a short packet to process, and one to write.
abbrev peer : PeerConnection ciphers
peer = record {
  stream = some (record {
    token = 9;
    received = bytes (1 ∷ 2 ∷ []) ∷ (blocks ∷ []);
    rooms = accepts 1 ∷ (full ∷ []);
    written = 7 ∷ [];
  });
  token = 9;
  last_deadline = 5000;
  addr = some (v4 1 2);
  remote_pub_key = replicate 32 4;
  key = tt;
  is_negotiated = false;
  is_acking = false;
  outbound = [];
  inbound_handlers = [];
  read_header = header;
  read_state = some reading_prefix;
  read_buf = 2 ∷ (3 ∷ (0 ∷ []));
  read_pos = 0;
  read_target = 3;
  write_header = header;
  write_state = some writing;
  write_buf = 8 ∷ (9 ∷ []);
  write_pos = 0;
}

read_loop_example : (r : Ending ciphers) × (read_loop ciphers 5 io peer idle_hub ≡ some r)
unfolding rounds_left
read_loop_example = read_loop-ends ciphers 5 io peer idle_hub (omega arith)

short_negotiation_example : process_packet ciphers io peer idle_hub ≡ none
unfolding lookup
short_negotiation_example =
    short_negotiation-panics ciphers io peer idle_hub refl refl (omega arith)

-- The socket took one byte of the two.
abbrev half_written : PeerConnection ciphers
half_written = record peer {
  stream = some (record {
    token = 9;
    received = bytes (1 ∷ 2 ∷ []) ∷ (blocks ∷ []);
    rooms = [];
    written = 7 ∷ (8 ∷ []);
  });
  write_pos = 1;
}

peer_writes : write_packet ciphers io peer idle_hub ≡ some (done true, half_written, idle_hub)
unfolding write_packet
peer_writes = refl

write_packet_example :
    (packed : PeerConnection ciphers) × (marshal ciphers io peer ≡ some (some packed))
    × Sent ciphers (stream_bytes ciphers packed) half_written
write_packet_example =
    write_packet-sends ciphers io peer idle_hub true half_written idle_hub peer_writes

own_keys : generate_keypair numbers (replicate 32 8) ≡ (idle_hub.pub_key, idle_hub.priv_key)
unfolding generate_keypair clamp_scalar_bytes
own_keys = refl

negotiation_example :
    (syn : NetMsg) × (ack : NetMsg) × (a1 : PeerConnection ciphers) × (a2 : PeerConnection ciphers)
    × (b2 : PeerConnection ciphers) × (s1 : Hub) × (s2 : Hub) × (s2' : Hub) × (initiate_negotiation
          ciphers io peer idle_hub
        ≡ (done tt, a1, s1))
    × (a1.outbound ≡ peer.outbound ++ syn ∷ [])
    × (handle_syn ciphers io (record peer { read_buf = replicate 3 2 ++ drop 39 syn.body }) idle_hub
        ≡ some (done (writes ack), b2, s2'))
    × (handle_ack ciphers io (record a1 { read_buf = replicate 3 3 ++ drop 39 ack.body }) idle_hub
        ≡ some (done nothing, a2, s2))
    × (a2.key ≡ b2.key)
    × (a2.is_negotiated ≡ true)
    × (b2.is_acking ≡ true)
negotiation_example =
    negotiation-agrees ciphers (replicate 32 8) (replicate 32 8) io io peer peer idle_hub idle_hub
      (replicate 3 2) (replicate 3 3) refl refl own_keys own_keys refl refl refl refl refl refl
      (λ key nonce plain l. ((plain, replicate 16 5), refl))

abbrev server : Server (PeerConnection ciphers)
server = record {
  hub = idle_hub;
  time_table = [];
  token_map = [];
  connections = [];
  idle_timeout = 60;
  idle_polltimeout = 500;
}

abbrev stream : Stream
stream = record {
  socket = record { token = 9; received = []; rooms = []; written = [] };
  nodelay = true;
  registers = true;
  deregisters = true;
  error = [];
}

-- Errors and internal messages change nothing here, and every address may connect.
abbrev handlers : Handlers (PeerConnection ciphers)
handlers = record {
  handle_from_internal = λ m s. (some m, s);
  allow_connection = λ addr. true;
  handle_errored = λ e addr s. s;
  from_internals = [];
}

handlers-KeepTable : KeepTable (peer_connection ciphers 60) handlers
handlers-KeepTable = ((λ e a s. refl), (λ m s. refl))

-- The listener has a stream.
abbrev arrival : Ready PeerIo
arrival = record {
  event = record { token = listener_id; is_error = false; is_writable = false; is_readable = true };
  accepted = some (stream, v4 1 2);
  popped = [];
  pops = 0 ∷ [];
  io = io;
  now = 1000;
}

abbrev served_server : Server (PeerConnection ciphers)
served_server =
    (handle_new (peer_connection ciphers 60) io 1000 stream (v4 1 2) none false server []).1

abbrev served_maps : List (ℕ × PeerConnection ciphers)
served_maps =
    (handle_new (peer_connection ciphers 60) io 1000 stream (v4 1 2) none false server []).2

first_turn :
    poll_turn (peer_connection ciphers 60) handlers 900 (some (arrival ∷ [])) [] server []
    ≡ some ([], served_server, served_maps)
unfolding poll_turn
first_turn = refl

abbrev run : Reach (peer_connection ciphers 60) handlers (server, []) (served_server, served_maps)
unfolding lookup handle_timeouts
run = later here (
    turn 900 (some (arrival ∷ [])) [] server served_server [] served_maps []
      (((λ new addr e. refl), (λ s1 e. tt)), (λ back s1 maps1 e. tt)) first_turn)

Reach-Timed_example : IsTimed (peer_connection ciphers 60) (served_server, served_maps)
Reach-Timed_example =
    Reach-Timed (peer_connection ciphers 60) handlers handlers-KeepTable server refl
      (served_server, served_maps) run

Reach-timeouts_example :
    ((t : ℕ)
      → lookup t (handle_timeouts (peer_connection ciphers 60) 99000 served_server served_maps).2
        ≡ alive (peer_connection ciphers 60) 99000 (lookup t served_maps))
    × ((t : ℕ) (c : PeerConnection ciphers)
        → lookup t (handle_timeouts (peer_connection ciphers 60) 99000 served_server served_maps).2
          ≡ some c
        → 99000 + (handle_timeouts (peer_connection ciphers 60) 99000 served_server served_maps).0
          ≤ c.last_deadline)
unfolding peer_connection
Reach-timeouts_example =
    Reach-timeouts (peer_connection ciphers 60) handlers handlers-KeepTable server refl
      served_server served_maps run 99000

abbrev caller : RpcConn
caller = record {
  stream = none;
  token = 0;
  last_deadline = 0;
  addr = none;
  code = some add_request;
  read_state = some Rpc.processing;
  read_buffer = 10 ∷ (1 ∷ (2 ∷ (3 ∷ [])));
  read_pos = 0;
  outbound = [];
  write_state = none;
  write_buffer = [];
  write_pos = 0;
}

abbrev rpc_hub : Hub
rpc_hub = record idle_hub {
  to_internals = (networker_id, record { capacity = 4; taken = []; sent = []; used = [] }) ∷ [];
}

abbrev some_peers : PeerMan
some_peers = record { file = record { bytes = []; cursor = 0 }; peers = []; threshold = 5 }

request_example :
    (m : NetMsg) × ((request 1 2 adds_peer caller rpc_hub).internal_msgs
      ≡ [] ++ (networker_id, m) ∷ [])
    × ((handle_internal m some_peers).1
        ≡ change_peers adds_peer (replicate 9 0 ++ 10 ∷ []) some_peers)
unfolding lookup
request_example =
    request-adds_others 1 2 10 1 2 3 4 [] [] caller rpc_hub some_peers (omega arith) refl refl
