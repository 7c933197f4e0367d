-- ===== src/Trx/Ephemeral/Codec/RoundTrip.antt =====
-- A transaction that both parties signed reads back from its bytes, and its signatures verify.
use bullet_ledger.Base.{ℕ, ◌+◌, ◌≤◌, ◌≡◌, refl, true, some, List, length, inl, inr, arith}
use bullet_ledger.Base.Slices.{slice}
use bullet_ledger.Base.Writes.{Fits, Reads, apply, slice-apply}
use bullet_ledger.Base.Words.{to_le_bytes, length-to_le_bytes, from_le_bytes-to_le_bytes}
use bullet_ledger.Crypto.{Curve, Hasher, commit}
use bullet_ledger.Schnorr.Complete.{from_bytes-slices, verify-generate}
use bullet_ledger.Trx.Secrets.{TrxSecrets, proof_length, trx_length}
use bullet_ledger.Trx.Ephemeral.{
  EphemeralTrx, total_trx_proof, grown, context, compute_hash, unmarshal, verify_schnorrs,
}
use bullet_ledger.Trx.Ephemeral.Codec.{
  IsSized, sign_and_read, sender_made, receiver_made, all_writes, length-sender_made,
  length-receiver_made, sender_step, receiver_step, length-grown, first-Fits, Fits-shared,
  Fits-proof, first_writes, shared_writes,
}

module _ (c : Curve) (h : Hasher) (r1 r2 r3 r4 : c.Scalar) (s s' : TrxSecrets c) where
  all-Fits :
      (t : EphemeralTrx c) (p : c.Proof) (size : ℕ)
      → IsSized c h t
      → total_trx_proof ≤ size
      → Fits size (all_writes c h r1 r2 r3 r4 s s' t p)
  all-Fits t p size i big =
      let f1 = first-Fits c h r1 r2 r3 r4 s s' t p size i big in
      Fits-proof c h (receiver_made c h r1 r2 r3 r4 s s' t) (trx_length + 96)
        (shared_writes c h t (first_writes c h r1 r2 r3 r4 s s' t p)) size
        (length-receiver_made c h r1 r2 r3 r4 s s' t) (omega arith)
        (Fits-shared c h t (first_writes c h r1 r2 r3 r4 s s' t p) size i big f1)

  module _ (t : EphemeralTrx c) (p : c.Proof) (buf : List ℕ) (i : IsSized c h t)
      (big : total_trx_proof ≤ length buf) where
    abbrev signed : List ℕ
    signed = apply (all_writes c h r1 r2 r3 r4 s s' t p) buf

    read :
        (a n : ℕ) (out : List ℕ)
        → a + n ≤ total_trx_proof
        → Reads a n out (all_writes c h r1 r2 r3 r4 s s' t p)
        → slice a n signed ≡ some out
    read a n out le r =
        slice-apply a n out (all_writes c h r1 r2 r3 r4 s s' t p) buf (omega arith)
          (all-Fits t p (length buf) i big) r

    read_proof : slice 0 proof_length signed ≡ some (c.proof_to_bytes p)
    read_proof = read 0 proof_length (c.proof_to_bytes p) (omega arith) (
        inr (
          inl (omega arith),
          inr (
            inl (omega arith),
            inr (
              inl (omega arith),
              inr (
                inl (omega arith),
                inr (
                  inl (omega arith),
                  inr (
                    inl (omega arith),
                    inr (
                      inl (omega arith),
                      inr (
                        inl (omega arith),
                        inr (
                          inl (omega arith),
                          inr (
                            inl (omega arith),
                            inr (
                              inl (omega arith),
                              inr (
                                inl (omega arith),
                                inr (
                                  inl (omega arith),
                                  inr (
                                    inl (omega arith),
                                    inl (refl, c.length-proof_to_bytes p, refl),
                                  ),
                                ),
                              ),
                            ),
                          ),
                        ),
                      ),
                    ),
                  ),
                ),
              ),
            ),
          ),
        ))

    read_sender : slice proof_length 32 signed ≡ some t.sender_init
    read_sender = read proof_length 32 t.sender_init (omega arith) (
        inr (
          inl (omega arith),
          inr (
            inl (omega arith),
            inr (
              inl (omega arith),
              inr (
                inl (omega arith),
                inr (inl (omega arith), inr (inl (omega arith), inl (refl, i.sender_32, refl))),
              ),
            ),
          ),
        ))

    read_delta : slice (proof_length + 32) 32 signed ≡ some t.delta_commit
    read_delta = read (proof_length + 32) 32 t.delta_commit (omega arith) (
        inr (
          inl (omega arith),
          inr (
            inl (omega arith),
            inr (
              inl (omega arith),
              inr (inl (omega arith), inr (inl (omega arith), inl (refl, i.delta_32, refl))),
            ),
          ),
        ))

    read_fee : slice (proof_length + 64) 8 signed ≡ some (to_le_bytes 8 t.fee_value)
    read_fee = read (proof_length + 64) 8 (to_le_bytes 8 t.fee_value) (omega arith) (
        inr (
          inl (omega arith),
          inr (
            inl (omega arith),
            inr (
              inl (omega arith),
              inr (inl (omega arith), inl (refl, length-to_le_bytes 8 t.fee_value, refl)),
            ),
          ),
        ))

    read_receiver : slice (proof_length + 72) 32 signed ≡ some t.receiver_init
    read_receiver = read (proof_length + 72) 32 t.receiver_init (omega arith) (
        inr (
          inl (omega arith),
          inr (inl (omega arith), inr (inl (omega arith), inl (refl, i.receiver_32, refl))),
        ))

    sender_random :
        slice (trx_length) 32 signed ≡ some ((sender_made c h r1 r2 r3 r4 s s' t).random)
    sender_random =
        let l8 = length-to_le_bytes 8 t.fee_value in
        read (trx_length) 32 ((sender_made c h r1 r2 r3 r4 s s' t).random) (omega arith) (
          inr (
            inl (omega arith),
            inr (
              inl (omega arith),
              inr (
                inl (omega arith),
                inr (
                  inr (omega (arith, l8)),
                  inr (
                    inr (omega (arith, l8)),
                    inr (
                      inr (omega (arith, l8)),
                      inr (
                        inr (omega (arith, l8)),
                        inr (
                          inl (omega arith),
                          inr (
                            inl (omega arith),
                            inl (refl, length-sender_made c h r1 r2 r3 r4 s s' t, refl),
                          ),
                        ),
                      ),
                    ),
                  ),
                ),
              ),
            ),
          ))

    sender_s1 :
        slice (trx_length + 32) 32 signed
        ≡ some (c.scalar_bytes (sender_made c h r1 r2 r3 r4 s s' t).s1)
    sender_s1 =
        let l8 = length-to_le_bytes 8 t.fee_value in
        read (trx_length + 32) 32 (c.scalar_bytes (sender_made c h r1 r2 r3 r4 s s' t).s1)
          (omega arith)
          (inr (
            inl (omega arith),
            inr (
              inl (omega arith),
              inr (
                inl (omega arith),
                inr (
                  inr (omega (arith, l8)),
                  inr (
                    inr (omega (arith, l8)),
                    inr (
                      inr (omega (arith, l8)),
                      inr (
                        inr (omega (arith, l8)),
                        inr (
                          inl (omega arith),
                          inl (
                            refl,
                            c.length-scalar_bytes (sender_made c h r1 r2 r3 r4 s s' t).s1,
                            refl,
                          ),
                        ),
                      ),
                    ),
                  ),
                ),
              ),
            ),
          ))

    sender_s2 :
        slice (trx_length + 64) 32 signed
        ≡ some (c.scalar_bytes (sender_made c h r1 r2 r3 r4 s s' t).s2)
    sender_s2 =
        let l8 = length-to_le_bytes 8 t.fee_value in
        read (trx_length + 64) 32 (c.scalar_bytes (sender_made c h r1 r2 r3 r4 s s' t).s2)
          (omega arith)
          (inr (
            inl (omega arith),
            inr (
              inl (omega arith),
              inr (
                inl (omega arith),
                inr (
                  inr (omega (arith, l8)),
                  inr (
                    inr (omega (arith, l8)),
                    inr (
                      inr (omega (arith, l8)),
                      inr (
                        inr (omega (arith, l8)),
                        inl (
                          refl,
                          c.length-scalar_bytes (sender_made c h r1 r2 r3 r4 s s' t).s2,
                          refl,
                        ),
                      ),
                    ),
                  ),
                ),
              ),
            ),
          ))

    receiver_random :
        slice (trx_length + 96) 32 signed ≡ some ((receiver_made c h r1 r2 r3 r4 s s' t).random)
    receiver_random =
        let l8 = length-to_le_bytes 8 t.fee_value in
        read (trx_length + 96) 32 ((receiver_made c h r1 r2 r3 r4 s s' t).random) (omega arith) (
          inr (
            inl (omega arith),
            inr (inl (omega arith), inl (refl, length-receiver_made c h r1 r2 r3 r4 s s' t, refl)),
          ))

    receiver_s1 :
        slice (trx_length + 96 + 32) 32 signed
        ≡ some (c.scalar_bytes (receiver_made c h r1 r2 r3 r4 s s' t).s1)
    receiver_s1 =
        let l8 = length-to_le_bytes 8 t.fee_value in
        read (trx_length + 96 + 32) 32 (c.scalar_bytes (receiver_made c h r1 r2 r3 r4 s s' t).s1)
          (omega arith)
          (inr (
            inl (omega arith),
            inl (refl, c.length-scalar_bytes (receiver_made c h r1 r2 r3 r4 s s' t).s1, refl),
          ))

    receiver_s2 :
        slice (trx_length + 96 + 64) 32 signed
        ≡ some (c.scalar_bytes (receiver_made c h r1 r2 r3 r4 s s' t).s2)
    receiver_s2 =
        let l8 = length-to_le_bytes 8 t.fee_value in
        read (trx_length + 96 + 64) 32 (c.scalar_bytes (receiver_made c h r1 r2 r3 r4 s s' t).s2)
          (omega arith)
          (inl (refl, c.length-scalar_bytes (receiver_made c h r1 r2 r3 r4 s s' t).s2, refl))

  abbrev pub read_back : EphemeralTrx c → c.Proof → EphemeralTrx c → EphemeralTrx c
  read_back t p t0 = record t0 {
    hash = h.blake3 (context c h (record t { tag = t0.tag }));
    sender_proof = some p;
    sender_init = t.sender_init;
    delta_commit = t.delta_commit;
    fee_value = t.fee_value;
    receiver_init = t.receiver_init;
    sender_schnorr = sender_made c h r1 r2 r3 r4 s s' t;
    receiver_schnorr = receiver_made c h r1 r2 r3 r4 s s' t;
  }

  unmarshal_signed :
      (t : EphemeralTrx c) (p : c.Proof) (buf : List ℕ) (t0 : EphemeralTrx c)
      → IsSized c h t
      → total_trx_proof ≤ length buf
      → unmarshal c h t0 (apply (all_writes c h r1 r2 r3 r4 s s' t p) buf)
        ≡ some (read_back t p t0, true)
  unfolding unmarshal compute_hash
  unmarshal_signed t p buf t0 i big =
      let fee = from_le_bytes-to_le_bytes 8 t.fee_value (omega (arith, i.fee_u64)) in
      let b1 =
        from_bytes-slices c h (sender_made c h r1 r2 r3 r4 s s' t) trx_length (signed t p buf i big)
          (sender_random t p buf i big) (sender_s1 t p buf i big) (sender_s2 t p buf i big) in
      let b2 =
        from_bytes-slices c h (receiver_made c h r1 r2 r3 r4 s s' t) (trx_length + 96)
          (signed t p buf i big) (receiver_random t p buf i big) (receiver_s1 t p buf i big)
          (receiver_s2 t p buf i big) in
      rw (unmarshal, read_proof t p buf i big)
        (rw (c.proof_from-proof_to p) (
          rw (read_sender t p buf i big) (
            rw (read_delta t p buf i big) (
              rw (read_fee t p buf i big)
                (rw (read_receiver t p buf i big) (rw b1 (rw b2 (rw fee refl))))))))

  -- Let `t` hold a range proof and arrays of their lengths. Whatever buffer, random scalars and secrets
  -- the two parties sign with, nothing panics, and what is then read into any `t0` holds the proof,
  -- the two commitments, the delta, the fee and the two Schnorr proofs, and the hash of these under
  -- the tag of `t0`.
  pub sign_and_read_lem :
      (t : EphemeralTrx c) (p : c.Proof) (buf : List ℕ) (t0 : EphemeralTrx c)
      → IsSized c h t
      → t.sender_proof ≡ some p
      → sign_and_read c h r1 r2 r3 r4 s s' t buf t0 ≡ some (read_back t p t0, true)
  unfolding sign_and_read
  sign_and_read_lem t p buf t0 i e =
      let big = length-grown c h buf in
      rw (sign_and_read, sender_step c h r1 r2 r3 r4 s s' t p buf i e)
        (rw (receiver_step c h r1 r2 r3 r4 s s' t p (grown c h buf) i big)
          (unmarshal_signed t p (grown c h buf) t0 i big))

  verify_read_back :
      (t : EphemeralTrx c) (p : c.Proof) (t0 : EphemeralTrx c)
      → t0.tag ≡ t.tag
      → t.sender_init ≡ c.compress (commit c s.x s.r)
      → t.receiver_init ≡ c.compress (commit c s'.x s'.r)
      → verify_schnorrs c h (read_back t p t0) ≡ some (read_back t p t0, true)
  unfolding verify_schnorrs compute_hash context
  verify_read_back t p t0 et es er =
      let digest = h.blake3 (context c h t) in
      let v1 = rw (← es) at (verify-generate c h r1 r2 s.x s.r digest) in
      let v2 = rw (← er) at (verify-generate c h r3 r4 s'.x s'.r digest) in
      rw (verify_schnorrs, et) (rw v1 (rw v2 refl))

  -- What an honest sender and receiver sign, each with the opening of its commitment in the
  -- transaction, is read back under the same tag as a transaction whose two signatures verify.
  pub verify_ephemeral-sign_and_read :
      (t : EphemeralTrx c) (p : c.Proof) (buf : List ℕ) (t0 : EphemeralTrx c)
      → IsSized c h t
      → t.sender_proof ≡ some p
      → t0.tag ≡ t.tag
      → t.sender_init ≡ c.compress (commit c s.x s.r)
      → t.receiver_init ≡ c.compress (commit c s'.x s'.r)
      → (t' : EphemeralTrx c) × (sign_and_read c h r1 r2 r3 r4 s s' t buf t0 ≡ some (t', true))
        × (verify_schnorrs c h t' ≡ some (t', true))
  verify_ephemeral-sign_and_read t p buf t0 i e et es er =
      (read_back t p t0, sign_and_read_lem t p buf t0 i e, verify_read_back t p t0 et es er)
