-- ===== src/Trx/Secrets.antt =====
-- src/blockchain/trxs/mod.rs: lengths, and the secrets behind a commitment.
use bullet_ledger.Base.{ℕ, ◌+◌, ◌*◌, List, [], ◌∷◌}
use bullet_ledger.Crypto.{Curve, commit}

abbrev pub proof_length : ℕ
proof_length = 672

abbrev pub trx_length : ℕ
trx_length = proof_length + 3 * 32 + 8

-- The 32 zero bytes of a default point or hash.
abbrev pub zero_32 : List ℕ
zero_32 =
    0 ∷ 0 ∷ 0 ∷ 0 ∷ 0 ∷ 0 ∷ 0 ∷ 0 ∷ 0 ∷ 0 ∷ 0 ∷ 0 ∷ 0 ∷ 0 ∷ 0 ∷ 0 ∷ 0 ∷ 0 ∷ 0 ∷ 0 ∷ 0 ∷ 0 ∷ 0 ∷ 0
    ∷ 0 ∷ 0 ∷ 0 ∷ 0 ∷ 0 ∷ 0 ∷ 0 ∷ 0 ∷ []

-- b"bullet_ledger", the tag of `Default`.
abbrev pub default_tag : List ℕ
default_tag =
    b'b' ∷ b'u' ∷ b'l' ∷ b'l' ∷ b'e' ∷ b't' ∷ b'_' ∷ b'l' ∷ b'e' ∷ b'd' ∷ b'g' ∷ b'e' ∷ b'r' ∷ []

pub record TrxSecrets (c : Curve) : Type 0 where
  pub commitment : List ℕ
  pub val : ℕ
  pub x : c.Scalar
  pub r : c.Scalar

module _ (c : Curve) where
  -- `r` is drawn at random.
  unfoldable pub hidden_value_commit : c.Scalar → ℕ → TrxSecrets c
  hidden_value_commit r val =
      let x = c.scalar_from val in
      record { commitment = c.compress (commit c x r); val = val; x = x; r = r }

  unfoldable pub visible_value_commit : ℕ → TrxSecrets c
  visible_value_commit val =
      let x = c.scalar_from val in
      record { commitment = c.compress (commit c x c.s_zero); val = val; x = x; r = c.s_zero }
