-- ===== src/Trx.antt =====
-- src/blockchain/trxs: the three kinds of transactions, and the pool's view of them.
pub mod Secrets
pub mod Ephemeral
pub mod Regular
pub mod Hidden
pub mod Pooled
