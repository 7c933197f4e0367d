-- ===== src/Lib.antt =====
-- bullet_ledger is a node of a ledger of hidden balances. Threads for the network, the RPC and the
-- blockchain pass messages to each other over single-producer, single-consumer rings. The network
-- thread frames and encrypts packets and keeps scores of its peers; the blockchain thread reads
-- transactions, checks them, keeps them in a pool ordered by fee, executes them against a ledger
-- behind foreign functions, and counts votes for checkpoints.
--
-- Files:
-- - Base and its children: lists, byte slices, sequences of writes to a buffer, machine words and
--   association lists over the native numbers. A write or read out of range is the panic `none`.
-- - Crypto: what the crates curve25519-dalek, bulletproofs, ed25519-dalek and blake3 provide, as
--   the records Curve, Signer and Hasher, with the group laws, the decodings that read back an
--   encoding, and a signature that verifies. Commitments with their homomorphic laws.
-- - Schnorr: src/blockchain/schnorr.rs, proofs that a commitment can be opened (generate, verify,
--   copy_to_slice, from_bytes).
-- - Ledger: src/blockchain/ledger/mod.rs, the calls of the ledger engine. The foreign functions of
--   src/blockchain/ledger/ffi.rs are the record LedgerFfi.
-- - Pool: src/blockchain/priority.rs, the transaction pool. The BinaryHeap is the list of its
--   entries, the greatest first; insert, remove_one, pop, peek, clean and the recycling of values
--   and keys are functions of the same names.
-- - Trx/Secrets, Trx/Ephemeral, Trx/Hidden, Trx/Regular, Trx/Pooled: src/blockchain/trxs/mod.rs,
--   ephemeral.rs, hidden.rs and regular.rs, the three kinds of transactions. In the results an
--   outer `none` is a panic, an inner one the error of the Result. Builds with and without
--   overflow checks are told apart by the Boolean `checks`.
-- - Node: src/blockchain/mod.rs and codes.rs, the handling of a message from the network
--   (from_net). Node/Block: src/blockchain/execution.rs, the execution of a block.
-- - Consensus: src/blockchain/consensus.rs, epochs and votes. A shared pointer to a checkpoint is
--   a number into a store; a borrow that RefCell refuses is a panic.
-- - Spsc: src/spsc.rs, the ring and the chute that make a channel.
-- - Peers: src/peer_net/peers.rs and src/utils/errors.rs, peers, scores and the file that keeps
--   them.
-- - Header: src/peer_net/header.rs, the packet codes of src/peer_net/handlers.rs, and the prefix
--   that read_prefix of src/peer_net/connection.rs takes apart. ChaCha20Poly1305 is the record
--   Aead.
-- - Net/Message, Net/Keys: src/utils/msg.rs and src/utils/keys.rs, the messages between threads
--   and the keys. X25519 and HKDF are the record Exchange.
-- - Net/Socket: what the connections use of a stream of mio, a script of what its reads and writes
--   will find.
-- - Net/Hub: src/server.rs, the fields of NetServer that connections use and the queue to the
--   other threads (internal_try_push); a link to a thread is the pair of bounded queues that
--   Spsc/Refine shows a channel to be. What a consumer has popped is kept with the link.
--   Hub/Dispatch and Hub/States take a flush round by round; Hub/Order is about a flush during
--   which no consumer pops, Hub/Consumers and Hub/Spins are about consumers that pop between its
--   tries.
-- - Net/Server: src/server.rs, connections and deadlines, over the record TcpConnection, which is
--   the trait with what the server relies on. Server/Events: handle_new, handle_outbound and the
--   events of start. Server/Intake: the messages that start takes from other threads. Server/Poll:
--   NetServer::new and a turn of the loop of start. Server/Expiry, Server/Deadlines and
--   Server/Kept: the table of deadlines under each operation; Server/Turn and Server/Loop: the
--   table under a turn of the loop, for which a stream that is accepted or dialled must have a
--   descriptor that no connection has; Server/Life: what the turns reach.
-- - Net/Peer: src/peer_net/connection.rs, the connection to a peer; Peer/Handle: its negotiation,
--   src/peer_net/ping_pong.rs and src/peer_net/handlers.rs (send_ping is in Net/Ping), with the
--   agreement of two ends in Handle/Answers and Handle/Agree; Peer/Read and Peer/Write:
--   on_readable and on_writable, with the rounds of the one in Read/Rounds and the bytes of the
--   other in Write/Wire; Peer/Serve: the connection as a TcpConnection.
-- - Net/Manager, Net/Rpc: src/peer_net/mod.rs, src/rpc/connection.rs and src/rpc/mod.rs, what the
--   network and the RPC threads do with messages and requests. Rpc/Loops: the loops of on_readable
--   and on_writable; Rpc/Request: from a request to the peers.
-- - Examples: concrete instances of the parameters, and the theorems at concrete inputs.
--
-- Fuel: the eviction loop of Pool.insert is given two rounds more than the heap has entries, which
-- is enough on a valid pool. The loop over epochs of Consensus takes its rounds as an argument;
-- one more than the length of the chain is enough. The flush of Net/Hub takes, as a list with a
-- number for each round, what the consumer of the tried link popped since the last try on it; with
-- zeros only, one more than the queue is long is enough, with other numbers no length may be. A
-- turn of the poll loop has such a list for each flush. The loop of on_readable takes its rounds
-- too, and those of rounds_left are enough. The loops of the RPC take rounds as well. All other
-- loops are structural recursion.
--
-- Not modelled: polling and threads (the system calls of src/server.rs, whose answers are
-- arguments, and the starts of threads in src/peer_net/mod.rs and src/rpc/mod.rs), the stubs of
-- src/social, randomness, configuration and start-up, which are input and output or calls of
-- libraries; the ledger engine under ledger/, which is C++ behind the foreign functions. Random
-- numbers are arguments. Within one call of a ring the two threads do not interleave: calls take
-- effect in some order. What a consumer recycles is in a link from the start, as `used`, which a
-- flush does not read. A turn of the poll loop has a result only when its flushes end and no call
-- in it panics.
pub mod Base
pub mod Crypto
pub mod Schnorr
pub mod Ledger
pub mod Pool
pub mod Trx
pub mod Node
pub mod Consensus
pub mod Spsc
pub mod Peers
pub mod Header
pub mod Net
pub mod Examples
