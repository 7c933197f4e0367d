-- ===== src/Node/Block.antt =====
-- src/blockchain/execution.rs: a block of transaction keys is executed against the pool and the ledger.
pub mod Executed
use bullet_ledger.Base.{
  ℕ, zero, suc, ◌+◌, ◌/◌, ◌==◌, Bool, true, false, Option, none, some, List, [], ◌∷◌, if◌then◌else◌,
  ◌>>=◌, drop,
}
use bullet_ledger.Base.Slices.{slice}
use bullet_ledger.Base.Words.{from_be_bytes}
use bullet_ledger.Crypto.{Curve, Signer, Hasher}
use bullet_ledger.Ledger.{LedgerFfi, db_put}
use bullet_ledger.Pool.{PriorityPool, get, get_key, remove_one}
use bullet_ledger.Schnorr.{verify, from_bytes}
use bullet_ledger.Trx.Pooled.{Trx, trx_derive, execute}
use bullet_ledger.Node.{Node}

module _ (c : Curve) (g : Signer) (h : Hasher) (f : LedgerFfi) where
  -- The transaction of a key, if it is in the pool. `none` is the panic of `execute`.
  unfoldable pub execute_key :
      ℕ → PriorityPool (Trx c g) → f.Handle → c.Point → Option (f.Handle × c.Point)
  execute_key k p l fees = elim (get k p) [
    | none ↦ some (l, fees)
    | some (t, u) ↦ execute c g f t l fees
  ]

  -- The `n` rounds of the loop from `cursor` on: a key that ends behind the body panics.
  unfoldable pub execute_keys :
      ℕ
      → ℕ
      → List ℕ
      → PriorityPool (Trx c g)
      → f.Handle
      → c.Point
      → Option (PriorityPool (Trx c g) × f.Handle × c.Point)
  execute_keys zero cursor body p l fees = some (p, l, fees)
  execute_keys (suc n) cursor body p l fees = do
    k ← slice cursor 32 body
    (l', fees') ← execute_key (from_be_bytes k) p l fees
    execute_keys n (cursor + 32) body (remove_one (trx_derive c g h) (from_be_bytes k) p) l' fees'

  -- Rounds while `cursor`, which grows by 32, is below `cursor + block_size`.
  abbrev pub rounds : ℕ → ℕ
  rounds block_size = (block_size + 31) / 32

  -- `is_validator` is always true. The result of the write is ignored.
  unfoldable pub execute_hidden_block : ℕ → List ℕ → Node c g f → Option (Node c g f)
  execute_hidden_block block_size body n = do
    validator ← slice 0 32 body
    proof ← from_bytes c h 32 body
    right ← verify c h proof validator (h.blake3 (drop 128 body))
    let executed = do
      (pool, l, fees) ←
          execute_keys (rounds block_size) 128 body (get_key n.pool).1 n.ledger c.identity
      some (record n { pool = pool; ledger = (db_put f validator (c.compress fees) l).1 })
    if right then executed else some n
