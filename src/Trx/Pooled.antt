-- ===== src/Trx/Pooled.antt =====
-- src/blockchain/trxs/mod.rs: a transaction of any kind, as the pool and the execution see it.
use mathlib.Core.Path.{subst}
use bullet_ledger.Base.{
  ℕ, ◌==◌, ◌≡◌, refl, if◌then◌else◌, Option, none, some, List, ◌>>=◌, arith, sym,
}
use bullet_ledger.Base.Words.{from_be_bytes}
use bullet_ledger.Crypto.{Curve, Signer, Hasher}
use bullet_ledger.Ledger.{LedgerFfi, db_put}
use bullet_ledger.Pool.{DeriveStuff}
use bullet_ledger.Trx.Secrets.{default_tag}
use bullet_ledger.Trx.Ephemeral
use bullet_ledger.Trx.Ephemeral.{
  EphemeralTrx, sender_after, receiver_after, is_valid, compute_hash, verify_schnorrs, check_points,
}
use bullet_ledger.Trx.Ephemeral.Transfer.{check_points-some, is_valid-some}
use bullet_ledger.Trx.Hidden
use bullet_ledger.Trx.Hidden.{HiddenTrx}
use bullet_ledger.Trx.Regular
use bullet_ledger.Trx.Regular.{RegularTrx}

abbrev pub ephemeral_id : ℕ
ephemeral_id = 99

abbrev pub hidden_id : ℕ
hidden_id = 101

abbrev pub regular_id : ℕ
regular_id = 103

pub data Trx (c : Curve) (g : Signer) : Type 0 where
  ephemeral : EphemeralTrx c → Trx c g
  hidden : HiddenTrx c g → Trx c g
  regular : RegularTrx g → Trx c g

module _ (c : Curve) (g : Signer) (h : Hasher) where
  unfoldable pub new_trx : ℕ → Trx c g
  new_trx id =
      if id == ephemeral_id
      then ephemeral (Ephemeral.new c h default_tag)
      else if id == hidden_id
      then hidden (Hidden.new c g h default_tag)
      else regular (Regular.new g h default_tag)

  -- The key is the hash.
  unfoldable pub fill_key : Trx c g → ℕ
  fill_key (ephemeral t) = from_be_bytes t.hash
  fill_key (hidden t) = from_be_bytes t.hash
  fill_key (regular t) = from_be_bytes t.hash

  unfoldable pub get_comperator : Trx c g → ℕ
  get_comperator (ephemeral t) = t.fee_value
  get_comperator (hidden t) = t.fee_value
  get_comperator (regular t) = t.fee_value

  unfoldable pub get_value_id : Trx c g → ℕ
  get_value_id (ephemeral t) = ephemeral_id
  get_value_id (hidden t) = hidden_id
  get_value_id (regular t) = regular_id

  abbrev pub trx_derive : DeriveStuff (Trx c g)
  trx_derive = record {
    fill_key = fill_key;
    get_comperator = get_comperator;
    get_value_id = get_value_id;
    new = new_trx;
  }

module _ (c : Curve) (g : Signer) (f : LedgerFfi) where
  open c use {Point, p_add, p_mul, base, scalar_from, compress, decompress}

  -- Only ephemeral transactions execute. `none` is the panic of an `unwrap`; the results of the two
  -- writes are ignored.
  unfoldable pub execute : Trx c g → f.Handle → Point → Option (f.Handle × Point)
  execute (ephemeral t) l fee_commit = do
    delta ← decompress t.delta_commit
    s_init ← decompress t.sender_init
    r_init ← decompress t.receiver_init
    let s_final = compress (sender_after c s_init delta t.fee_value)
    let r_final = compress (receiver_after c r_init delta)
    let l1 = (db_put f t.sender_init s_final l).1
    let l2 = (db_put f t.receiver_init r_final l1).1
    some (l2, p_add fee_commit (p_mul (scalar_from t.fee_value) base))
  execute (hidden t) l fee_commit = some (l, fee_commit)
  execute (regular t) l fee_commit = some (l, fee_commit)

module _ (c : Curve) (g : Signer) (h : Hasher) (f : LedgerFfi) where
  open c use {Point, p_add, p_mul, base, scalar_from, compress, decompress}

  is_valid_trx :
      (t t' : EphemeralTrx c) (s' r' : List ℕ)
      → is_valid c h t ≡ some (t', some (s', r'))
      → t' ≡ record (compute_hash c h t) { sender_proof = none }
  is_valid_trx t t' s' r' e =
      let (seen, checked) = is_valid-some c h t t' s' r' e in
      unfold is_valid in ground (arith, e, seen)

  executed :
      (t : EphemeralTrx c) (d s r : Point) (l : f.Handle) (fees : Point)
      → decompress t.delta_commit ≡ some d
      → decompress t.sender_init ≡ some s
      → decompress t.receiver_init ≡ some r
      → execute c g f (ephemeral t) l fees
        ≡ some (
          (db_put f t.receiver_init
              (compress (receiver_after c r d))
              (db_put f t.sender_init (compress (sender_after c s d t.fee_value)) l).1).1,
          p_add fees (p_mul (scalar_from t.fee_value) base),
        )
  unfolding execute
  executed t d s r l fees ed es er = rw (ed, execute) (rw (es, execute) (rw (er, execute) refl))

  -- A transfer that `is_valid` accepted, with the new balances `s'` and `r'`, executes without a panic:
  -- it writes `s'` under the sender's old balance, then `r'` under the receiver's, and adds the fee's
  -- point to the collected fees.
  pub execute-is_valid :
      (t t' : EphemeralTrx c) (s' r' : List ℕ) (l : f.Handle) (fees : Point)
      → is_valid c h t ≡ some (t', some (s', r'))
      → execute c g f (ephemeral t') l fees
        ≡ some (
          (db_put f t.receiver_init r' (db_put f t.sender_init s' l).1).1,
          p_add fees (p_mul (scalar_from t.fee_value) base),
        )
  unfolding compute_hash
  execute-is_valid t t' s' r' l fees e =
      let (seen, checked) = is_valid-some c h t t' s' r' e in
      let (d, s, r, proof, ed, es, er, ep, e1, e2, ranged) =
        check_points-some c t.fee_value (decompress t.delta_commit) (decompress t.sender_init)
          (decompress t.receiver_init) t.sender_proof checked in
      let spent = record (compute_hash c h t) { sender_proof = none } in
      subst
        (λ m.
          execute c g f (ephemeral m) l fees
          ≡ some (
            (db_put f t.receiver_init r' (db_put f t.sender_init s' l).1).1,
            p_add fees (p_mul (scalar_from t.fee_value) base),
          ))
        (sym (is_valid_trx t t' s' r' e)) (rw (e1, e2) (executed spent d s r l fees ed es er))
