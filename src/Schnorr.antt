-- ===== src/Schnorr.antt =====
-- src/blockchain/schnorr.rs: a proof that the opening of a Pedersen commitment is known.
pub mod Complete
use bullet_ledger.Base.{ℕ, ◌+◌, ◌≡◌, Bool, Option, none, some, List, [], ◌∷◌, ◌++◌, ◌>>=◌, length}
use bullet_ledger.Base.Slices.{slice}
use bullet_ledger.Base.Writes.{copy_exact}
use bullet_ledger.Crypto.{Curve, Hasher, commit}

abbrev pub zero_point : List ℕ
zero_point =
    0 ∷ 0 ∷ 0 ∷ 0 ∷ 0 ∷ 0 ∷ 0 ∷ 0 ∷ 0 ∷ 0 ∷ 0 ∷ 0 ∷ 0 ∷ 0 ∷ 0 ∷ 0 ∷ 0 ∷ 0 ∷ 0 ∷ 0 ∷ 0 ∷ 0 ∷ 0 ∷ 0
    ∷ 0 ∷ 0 ∷ 0 ∷ 0 ∷ 0 ∷ 0 ∷ 0 ∷ 0 ∷ []

pub record SchnorrProof (c : Curve) : Type 0 where
  pub random : List ℕ
  pub s1 : c.Scalar
  pub s2 : c.Scalar

module _ (c : Curve) (h : Hasher) where
  open c use {
    Scalar, Point, s_zero, s_add, s_mul, p_add, p_mul, p_eq, compress, decompress, identity,
    from_bytes_mod_order, scalar_bytes,
  }

  unfoldable pub schnorr_default : SchnorrProof c
  schnorr_default = record { random = zero_point; s1 = s_zero; s2 = s_zero }

  unfoldable pub compute_challenge : List ℕ → List ℕ → List ℕ → Scalar
  compute_challenge random commitment context_hash =
      from_bytes_mod_order (h.blake3 (commitment ++ (random ++ context_hash)))

  -- `r1` and `r2` are the two scalars drawn at random.
  unfoldable pub generate : Scalar → Scalar → Scalar → Scalar → List ℕ → SchnorrProof c
  generate r1 r2 x r context_hash =
      let commitment = commit c x r in
      let random = compress (commit c r1 r2) in
      let e = compute_challenge random (compress commitment) context_hash in
      record { random = random; s1 = s_add r1 (s_mul e x); s2 = s_add r2 (s_mul e r) }

  -- `decompress().unwrap_or(default)`.
  unfoldable pub point_or_default : Option Point → Point
  point_or_default none = identity
  point_or_default (some p) = p

  -- `none` is the panic of `commit.decompress().unwrap()`.
  unfoldable pub verify : SchnorrProof c → List ℕ → List ℕ → Option Bool
  unfolding point_or_default
  verify proof commitment context_hash =
      let e = compute_challenge proof.random commitment context_hash in
      let random = point_or_default (decompress proof.random) in
      do
        point ← decompress commitment
        some (p_eq (commit c proof.s1 proof.s2) (p_add random (p_mul e point)))

  -- `copy_to_slice(&mut buff[at..])`: three writes of 32 bytes.
  unfoldable pub copy_to_slice : SchnorrProof c → ℕ → List ℕ → Option (List ℕ)
  copy_to_slice proof at buff = do
    b1 ← copy_exact at 32 proof.random buff
    b2 ← copy_exact (at + 32) 32 (scalar_bytes proof.s1) b1
    copy_exact (at + 64) 32 (scalar_bytes proof.s2) b2

  unfoldable pub from_bytes : ℕ → List ℕ → Option (SchnorrProof c)
  from_bytes at buff = do
    random ← slice at 32 buff
    s1 ← slice (at + 32) 32 buff
    s2 ← slice (at + 64) 32 buff
    some (record { random = random; s1 = from_bytes_mod_order s1; s2 = from_bytes_mod_order s2 })
