-- ===== src/Schnorr/Complete.antt =====
-- An honest proof verifies, and a proof is read back from the bytes that it was written to.
use bullet_ledger.Base.{ℕ, ◌+◌, ◌≤◌, ◌≡◌, refl, true, some, List, ◌∷◌, length, arith, ◌∙◌, ap}
use bullet_ledger.Base.Writes.{Write, Fits, apply, copy_exact-apply}
use bullet_ledger.Base.Slices.{slice}
use bullet_ledger.Crypto.{Curve, Hasher, commit, commit-add, commit-mul}
use bullet_ledger.Schnorr.{
  SchnorrProof, generate, verify, compute_challenge, copy_to_slice, from_bytes,
}

module _ (c : Curve) (h : Hasher) where
  open c use {Scalar, compress, scalar_bytes, p_add, p_mul, p_eq_iff, s_add, s_mul}

  -- A proof that `generate` makes for the opening `x`, `r` verifies against the compressed commitment
  -- of `x`, `r` and the same context hash, whatever the two random scalars are; nothing panics.
  pub verify-generate :
      (r1 r2 x r : Scalar) (context_hash : List ℕ)
      → verify c h (generate c h r1 r2 x r context_hash) (compress (commit c x r)) context_hash
        ≡ some true
  unfolding verify generate
  verify-generate r1 r2 x r context_hash =
      rw (verify, c.decompress-compress (commit c x r), c.decompress-compress (commit c r1 r2))
        (ap some ((p_eq_iff _ _).1 eq))
    where
      e : Scalar
      e = compute_challenge c h (compress (commit c r1 r2)) (compress (commit c x r)) context_hash

      eq :
          commit c (s_add r1 (s_mul e x)) (s_add r2 (s_mul e r))
          ≡ p_add (commit c r1 r2) (p_mul e (commit c x r))
      eq =
          commit-add c r1 (s_mul e x) r2 (s_mul e r)
          ∙ ap (p_add (commit c r1 r2)) (commit-mul c e x r)

  -- The three writes of a proof.
  abbrev pub proof_writes : SchnorrProof c → ℕ → List Write → List Write
  proof_writes p at ws =
      (at + 64, scalar_bytes p.s2) ∷ ((at + 32, scalar_bytes p.s1) ∷ ((at, p.random) ∷ ws))

  pub copy_to_slice-apply :
      (p : SchnorrProof c) (at : ℕ) (ws : List Write) (buf : List ℕ)
      → length p.random ≡ 32
      → at + 96 ≤ length buf
      → Fits (length buf) ws
      → copy_to_slice c h p at (apply ws buf) ≡ some (apply (proof_writes p at ws) buf)
  unfolding copy_to_slice
  copy_to_slice-apply p at ws buf l fits f =
      let l1 = c.length-scalar_bytes p.s1 in
      let l2 = c.length-scalar_bytes p.s2 in
      let w1 : List Write = (at, p.random) ∷ ws in
      let w2 : List Write = (at + 32, scalar_bytes p.s1) ∷ w1 in
      rw (copy_to_slice, copy_exact-apply at 32 p.random ws buf l (omega arith) f)
        (rw
          (copy_exact-apply (at + 32) 32 (scalar_bytes p.s1) w1 buf l1 (omega arith)
            (omega (arith, l), f))
          (copy_exact-apply (at + 64) 32 (scalar_bytes p.s2) w2 buf l2 (omega arith)
            (omega (arith, l1), (omega (arith, l), f))))

  pub from_bytes-slices :
      (p : SchnorrProof c) (at : ℕ) (buf : List ℕ)
      → slice at 32 buf ≡ some p.random
      → slice (at + 32) 32 buf ≡ some (scalar_bytes p.s1)
      → slice (at + 64) 32 buf ≡ some (scalar_bytes p.s2)
      → from_bytes c h at buf ≡ some p
  unfolding from_bytes
  from_bytes-slices p at buf a b d =
      rw (from_bytes, a)
        (rw b (rw d (rw (c.from_bytes-scalar_bytes p.s1, c.from_bytes-scalar_bytes p.s2) refl)))
