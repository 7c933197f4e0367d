-- ===== src/Trx/Regular/Balances.antt =====
-- What `is_valid` does to the two balances.
use bullet_ledger.Base.{
  ℕ, ◌+◌, ◌-◌, ◌^◌, ◌<◌, ◌≤◌, ◌≡◌, ltb, if◌then◌else◌, Bool, true, false, none, some, arith,
}
use bullet_ledger.Base.Words.{add_word}
use bullet_ledger.Crypto.{Signer, Hasher}
use bullet_ledger.Trx.Regular.{RegularTrx, verify_sigs, compute_hash, is_valid}

module _ (g : Signer) (h : Hasher) where
  -- Where neither sum overflows, in every build: a rightly signed transfer is accepted exactly if the
  -- sender can pay the delta and the fee; the sender loses both, the receiver gains the delta.
  pub is_valid-exact :
      (checks : Bool) (t : RegularTrx g) (s r : ℕ)
      → (verify_sigs g h t).1 ≡ true
      → t.delta_value + t.fee_value < 2 ^ 64
      → r + t.delta_value < 2 ^ 64
      → is_valid g h checks t s r
        ≡ some (
          compute_hash g h t,
          (if ltb s (t.delta_value + t.fee_value)
              then none
              else some (s - (t.delta_value + t.fee_value), r + t.delta_value)),
        )
  unfolding is_valid add_word compute_hash
  is_valid-exact checks t s r right no_wrap fits = ground arith

  -- A build that checks overflows: what is accepted conserves the sum of the balances and the fee.
  pub is_valid_checked :
      (t t' : RegularTrx g) (s r s' r' : ℕ)
      → is_valid g h true t s r ≡ some (t', some (s', r'))
      → (s' + r' + t.fee_value ≡ s + r) × (r' < 2 ^ 64) × (t.delta_value + t.fee_value ≤ s)
  unfolding is_valid add_word
  is_valid_checked t t' s r s' r' e = ground arith

  -- A build that does not: a rightly signed transfer whose delta and fee pass 2 ^ 64 by no more than
  -- the sender's balance is accepted, and the two balances together grow.
  pub is_valid_wraps :
      (t : RegularTrx g) (s r : ℕ)
      → (verify_sigs g h t).1 ≡ true
      → t.delta_value < 2 ^ 64
      → t.fee_value < 2 ^ 64
      → 2 ^ 64 ≤ t.delta_value + t.fee_value
      → t.delta_value + t.fee_value ≤ s + 2 ^ 64
      → r + t.delta_value < 2 ^ 64
      → (s' : ℕ) × (r' : ℕ) × (is_valid g h false t s r ≡ some (compute_hash g h t, some (s', r')))
        × (s' + r' + t.fee_value ≡ s + r + 2 ^ 64)
        × (s + r < s' + r')
  unfolding is_valid add_word compute_hash
  is_valid_wraps t s r right d f wraps pays fits = (
    s + 2 ^ 64 - (t.delta_value + t.fee_value),
    r + t.delta_value,
    ground arith,
    omega arith,
    omega arith,
  )
