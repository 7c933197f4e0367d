-- ===== src/Crypto.antt =====
-- What the transactions take from third-party crates: curve25519-dalek and bulletproofs (`Curve`),
-- ed25519-dalek (`Signer`), blake3 (`Hasher`). The laws are those of a group with scalars, of encodings
-- that are read back, and of a signature that verifies.

use bullet_ledger.Base.{ℕ, ◌≡◌, ◌↔◌, Bool, true, Option, some, List, length, sym, refl}

pub record Curve : Type 1 where
  pub Scalar : Type 0
  pub Point : Type 0
  pub Proof : Type 0
  pub s_zero : Scalar
  pub s_add : Scalar → Scalar → Scalar
  pub s_sub : Scalar → Scalar → Scalar
  pub s_mul : Scalar → Scalar → Scalar
  pub scalar_from : ℕ → Scalar
  pub from_bytes_mod_order : List ℕ → Scalar
  pub scalar_bytes : Scalar → List ℕ
  pub identity : Point
  pub p_add : Point → Point → Point
  pub p_sub : Point → Point → Point
  pub p_mul : Scalar → Point → Point
  pub p_eq : Point → Point → Bool
  pub compress : Point → List ℕ
  pub decompress : List ℕ → Option Point
  -- `PedersenGens`: the base of values and the base of blindings.
  pub base : Point
  pub blinding : Point
  -- `RangeProof`.
  pub prove_single : ℕ → Scalar → Option Proof
  pub verify_single : Proof → List ℕ → Bool
  pub proof_to_bytes : Proof → List ℕ
  pub proof_from_bytes : List ℕ → Option Proof
  pub add_comm : (p q : Point) → p_add p q ≡ p_add q p
  pub add_assoc : (p q r : Point) → p_add (p_add p q) r ≡ p_add p (p_add q r)
  pub sub-add : (p q : Point) → p_add (p_sub p q) q ≡ p
  pub add-sub : (p q : Point) → p_sub (p_add p q) q ≡ p
  pub mul-add : (s t : Scalar) (p : Point) → p_mul (s_add s t) p ≡ p_add (p_mul s p) (p_mul t p)
  pub mul-sub : (s t : Scalar) (p : Point) → p_mul (s_sub s t) p ≡ p_sub (p_mul s p) (p_mul t p)
  pub mul-mul : (s t : Scalar) (p : Point) → p_mul (s_mul s t) p ≡ p_mul s (p_mul t p)
  pub mul-add_right :
      (s : Scalar) (p q : Point) → p_mul s (p_add p q) ≡ p_add (p_mul s p) (p_mul s q)
  pub mul-zero : (p q : Point) → p_add q (p_mul s_zero p) ≡ q
  pub p_eq_iff : (p q : Point) → (p_eq p q ≡ true) ↔ (p ≡ q)
  pub decompress-compress : (p : Point) → decompress (compress p) ≡ some p
  pub length-compress : (p : Point) → length (compress p) ≡ 32
  pub from_bytes-scalar_bytes : (s : Scalar) → from_bytes_mod_order (scalar_bytes s) ≡ s
  pub length-scalar_bytes : (s : Scalar) → length (scalar_bytes s) ≡ 32
  pub proof_from-proof_to : (p : Proof) → proof_from_bytes (proof_to_bytes p) ≡ some p
  pub length-proof_to_bytes : (p : Proof) → length (proof_to_bytes p) ≡ 672

pub record Signer : Type 1 where
  pub VerifyingKey : Type 0
  pub SigningKey : Type 0
  pub key_bytes : VerifyingKey → List ℕ
  pub key_from_bytes : List ℕ → Option VerifyingKey
  pub verifying_key : SigningKey → VerifyingKey
  pub sign : SigningKey → List ℕ → List ℕ
  pub verify_strict : VerifyingKey → List ℕ → List ℕ → Bool
  pub default_key : VerifyingKey
  pub key_from-key_bytes : (k : VerifyingKey) → key_from_bytes (key_bytes k) ≡ some k
  pub length-key_bytes : (k : VerifyingKey) → length (key_bytes k) ≡ 32
  pub length-sign : (k : SigningKey) (m : List ℕ) → length (sign k m) ≡ 64
  pub verify-sign :
      (k : SigningKey) (m : List ℕ) → verify_strict (verifying_key k) m (sign k m) ≡ true

-- The hash of all that the hasher was updated with.
pub record Hasher : Type 0 where
  pub blake3 : List ℕ → List ℕ
  pub length-blake3 : (m : List ℕ) → length (blake3 m) ≡ 32

module _ (c : Curve) where
  open c use {
    Scalar, Point, s_zero, s_add, s_sub, s_mul, p_add, p_sub, p_mul, base, blinding, add_comm,
    add_assoc, sub-add, add-sub, mul-add, mul-sub, mul-mul, mul-add_right, mul-zero,
  }

  -- `PedersenGens::commit`.
  unfoldable pub commit : Scalar → Scalar → Point
  commit x r = p_add (p_mul x base) (p_mul r blinding)

  pub add_swap : (a b x y : Point) → p_add (p_add a b) (p_add x y) ≡ p_add (p_add a x) (p_add b y)
  add_swap a b x y = rw (
    add_assoc a b (p_add x y),
    ← add_assoc b x y,
    add_comm b x,
    add_assoc x b y,
    ← add_assoc a x (p_add b y),
  )

  -- What added to `q` gives `p` is `p - q`.
  pub sub_of_add : (p q r : Point) → p_add r q ≡ p → p_sub p q ≡ r
  sub_of_add p q r e = rw (← e) (add-sub r q)

  pub commit-add :
      (x y r t : Scalar) → commit (s_add x y) (s_add r t) ≡ p_add (commit x r) (commit y t)
  unfolding commit
  commit-add x y r t = rw (commit, mul-add x y base, mul-add r t blinding) (add_swap _ _ _ _)

  pub commit-sub :
      (x y r t : Scalar) → commit (s_sub x y) (s_sub r t) ≡ p_sub (commit x r) (commit y t)
  unfolding commit
  commit-sub x y r t = sym (sub_of_add _ _ _ back)
    where
      back :
          p_add
            (p_add (p_mul (s_sub x y) base) (p_mul (s_sub r t) blinding))
            (p_add (p_mul y base) (p_mul t blinding))
          ≡ p_add (p_mul x base) (p_mul r blinding)
      back =
          rw (mul-sub x y base, mul-sub r t blinding)
            (rw
              (add_swap (p_sub (p_mul x base) (p_mul y base))
                (p_sub (p_mul r blinding) (p_mul t blinding)) (p_mul y base) (p_mul t blinding))
              (rw
                (
                  sub-add (p_mul x base) (p_mul y base),
                  sub-add (p_mul r blinding) (p_mul t blinding),
                )
                refl))

  pub commit-mul : (s x r : Scalar) → commit (s_mul s x) (s_mul s r) ≡ p_mul s (commit x r)
  unfolding commit
  commit-mul s x r = rw (
    commit,
    mul-mul s x base,
    mul-mul s r blinding,
    mul-add_right s (p_mul x base) (p_mul r blinding),
  )

  -- A commitment with the blinding 0 is a multiple of the value's base.
  pub commit_open : (x : Scalar) → commit x s_zero ≡ p_mul x base
  unfolding commit
  commit_open x = mul-zero blinding (p_mul x base)
