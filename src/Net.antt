-- ===== src/Net.antt =====
-- The network threads: messages, the server's queues and time-outs, and the connections.
pub mod Message
pub mod Socket
pub mod Keys
pub mod Hub
pub mod Server
pub mod Peer
pub mod Ping
pub mod Manager
pub mod Rpc
