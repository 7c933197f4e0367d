-- ===== src/Node.antt =====
-- src/blockchain/mod.rs and src/blockchain/codes.rs: what the blockchain thread does with a message
-- from the network.
pub mod Block
use bullet_ledger.Base.{
  ℕ, zero, suc, ◌==◌, Bool, true, false, Option, none, some, List, [], ◌∷◌, if◌then◌else◌, ◌>>=◌,
}
use bullet_ledger.Crypto.{Curve, Signer, Hasher}
use bullet_ledger.Ledger.{LedgerFfi, db_exists, is_ok}
use bullet_ledger.Pool.{PriorityPool, get_value, recycle_value, insert}
use bullet_ledger.Trx.Ephemeral.{EphemeralTrx, unmarshal, is_valid}
use bullet_ledger.Trx.Pooled.{Trx, ephemeral, hidden, regular, trx_derive}

pub data BlockchainCodes : Type 0 where
  no_code : BlockchainCodes
  new_block : BlockchainCodes
  new_trx : BlockchainCodes

unfoldable pub blockchain_code_from_u8 : ℕ → BlockchainCodes
blockchain_code_from_u8 dig =
    if dig == 1 then new_block else (if dig == 2 then BlockchainCodes.new_trx else no_code)

pub record Node (c : Curve) (g : Signer) (f : LedgerFfi) : Type 0 where
  pub pool : PriorityPool (Trx c g)
  pub ledger : f.Handle

abbrev pub passed : {A : Type 0} → Option A → Bool
passed none = false
passed (some a) = true

module _ (c : Curve) (g : Signer) (h : Hasher) (f : LedgerFfi) where
  -- The condition of the arm for ephemeral transactions: each test runs only where those before it
  -- succeed. `none` is a panic.
  unfoldable pub check_trx :
      EphemeralTrx c → List ℕ → f.Handle → Option (EphemeralTrx c × f.Handle × Bool)
  check_trx t body l = do
    (t1, parsed) ← unmarshal c h t body
    let (sender, l1) = db_exists f t1.sender_init l
    let (receiver, l2) = db_exists f t1.receiver_init l1
    let last = do (t2, finals) ← is_valid c h t1; some (t2, l2, passed finals)
    (if parsed
        then (if is_ok sender
            then (if is_ok receiver then last else some (t1, l2, false))
            else some (t1, l1, false))
        else some (t1, l, false))

  abbrev keep : Bool → Trx c g → PriorityPool (Trx c g) → Option (PriorityPool (Trx c g))
  keep true t p = insert (trx_derive c g h) t p
  keep false t p = some (recycle_value (trx_derive c g h) t p)

  unfoldable pub on_new_trx : Trx c g → List ℕ → Node c g f → Option (Node c g f)
  on_new_trx (ephemeral t) body n = do
    (t', l, accepted) ← check_trx t body n.ledger
    pool ← keep accepted (ephemeral t') n.pool
    some (record n { pool = pool; ledger = l })
  on_new_trx (hidden t) body n = some n
  on_new_trx (regular t) body n = some n

module _ (c : Curve) (g : Signer) (h : Hasher) (f : LedgerFfi) (grow : ℕ → ℕ) where
  -- `m.body[0]`, `m.body[1]` and `m.body[2..]` panic on a body that is too short.
  unfoldable pub from_net : List ℕ → Node c g f → Option (Node c g f)
  from_net [] n = none
  from_net (code ∷ rest) n = elim (blockchain_code_from_u8 code) [
    | BlockchainCodes.new_trx ↦ elim rest [
      | [] ↦ none
      | id ∷ body ↦
          let (t, pool) = get_value (trx_derive c g h) grow id n.pool in
          on_new_trx c g h f t body (record n { pool = pool })
    ]
    | new_block ↦ some n
    | no_code ↦ some n
  ]
