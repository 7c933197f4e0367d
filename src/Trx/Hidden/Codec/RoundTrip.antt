-- ===== src/Trx/Hidden/Codec/RoundTrip.antt =====
-- A transaction that both parties signed reads back from its bytes, and its signatures verify.
use bullet_ledger.Base.{
  ℕ, ◌+◌, ◌^◌, ◌<◌, ◌≤◌, ◌≡◌, refl, true, some, List, length, inl, inr, arith, ◌==◌, ==_iff, ◌∙◌,
}
use bullet_ledger.Base.Slices.{slice}
use bullet_ledger.Base.Writes.{
  Reads, apply, slice_rest, slice_rest-eq_slice, slice-apply, length-apply,
}
use bullet_ledger.Base.Words.{to_le_bytes, length-to_le_bytes, from_le_bytes-to_le_bytes}
use bullet_ledger.Crypto.{Curve, Signer, Hasher}
use bullet_ledger.Trx.Secrets.{proof_length, trx_length}
use bullet_ledger.Trx.Hidden.{
  HiddenTrx, total_trx_proof, context, compute_hash, grown, verify_sigs, read_sigs, read_shared,
  unmarshal,
}
use bullet_ledger.Trx.Hidden.Codec.{
  sign_and_read, sig_of, all_writes, all-Fits, length-grown, sender_step, receiver_step,
}

module _ (c : Curve) (g : Signer) (h : Hasher) (k k' : g.SigningKey) where
  module _ (t : HiddenTrx c g) (p : c.Proof) (buf : List ℕ) (ld : length t.delta_commit ≡ 32)
      (full : length buf ≡ total_trx_proof) where
    abbrev signed : List ℕ
    signed = apply (all_writes c g h k k' t p) buf

    read :
        (a n : ℕ) (out : List ℕ)
        → a + n ≤ total_trx_proof
        → Reads a n out (all_writes c g h k k' t p)
        → slice a n signed ≡ some out
    read a n out le r =
        slice-apply a n out (all_writes c g h k k' t p) buf (omega arith)
          (all-Fits c g h k k' t p (length buf) ld (omega arith)) r

    read_proof : slice (0) proof_length signed ≡ some (c.proof_to_bytes p)
    read_proof =
        let ls = g.length-key_bytes t.sender_addr in
        let lr = g.length-key_bytes t.receiver_addr in
        let lf = length-to_le_bytes 8 t.fee_value in
        read (0) proof_length (c.proof_to_bytes p) (omega arith) (
          inr (
            inl (omega arith),
            inr (
              inl (omega arith),
              inr (
                inl (omega arith),
                inr (
                  inl (omega arith),
                  inr (
                    inl (omega arith),
                    inr (
                      inl (omega arith),
                      inr (
                        inl (omega arith),
                        inr (
                          inl (omega arith),
                          inr (
                            inl (omega arith),
                            inr (inl (omega arith), inl (refl, c.length-proof_to_bytes p, refl)),
                          ),
                        ),
                      ),
                    ),
                  ),
                ),
              ),
            ),
          ))

    read_sender : slice (proof_length) 32 signed ≡ some (g.key_bytes t.sender_addr)
    read_sender =
        let ls = g.length-key_bytes t.sender_addr in
        let lr = g.length-key_bytes t.receiver_addr in
        let lf = length-to_le_bytes 8 t.fee_value in
        read (proof_length) 32 (g.key_bytes t.sender_addr) (omega arith) (
          inr (
            inl (omega arith),
            inr (
              inl (omega arith),
              inr (
                inl (omega arith),
                inr (inl (omega arith), inl (refl, g.length-key_bytes t.sender_addr, refl)),
              ),
            ),
          ))

    read_delta : slice (proof_length + 32) 32 signed ≡ some (t.delta_commit)
    read_delta =
        let ls = g.length-key_bytes t.sender_addr in
        let lr = g.length-key_bytes t.receiver_addr in
        let lf = length-to_le_bytes 8 t.fee_value in
        read (proof_length + 32) 32 (t.delta_commit) (omega arith) (
          inr (
            inl (omega arith),
            inr (inl (omega arith), inr (inl (omega arith), inl (refl, ld, refl))),
          ))

    read_fee : slice (proof_length + 64) 8 signed ≡ some (to_le_bytes 8 t.fee_value)
    read_fee =
        let ls = g.length-key_bytes t.sender_addr in
        let lr = g.length-key_bytes t.receiver_addr in
        let lf = length-to_le_bytes 8 t.fee_value in
        read (proof_length + 64) 8 (to_le_bytes 8 t.fee_value) (omega arith) (
          inr (
            inl (omega arith),
            inr (inl (omega arith), inl (refl, length-to_le_bytes 8 t.fee_value, refl)),
          ))

    read_receiver : slice (proof_length + 72) 32 signed ≡ some (g.key_bytes t.receiver_addr)
    read_receiver =
        let ls = g.length-key_bytes t.sender_addr in
        let lr = g.length-key_bytes t.receiver_addr in
        let lf = length-to_le_bytes 8 t.fee_value in
        read (proof_length + 72) 32 (g.key_bytes t.receiver_addr) (omega arith)
          (inr (inl (omega arith), inl (refl, g.length-key_bytes t.receiver_addr, refl)))

    read_sender_sig : slice (trx_length) 64 signed ≡ some (sig_of c g h k k' k t)
    read_sender_sig =
        let ls = g.length-key_bytes t.sender_addr in
        let lr = g.length-key_bytes t.receiver_addr in
        let lf = length-to_le_bytes 8 t.fee_value in
        read (trx_length) 64 (sig_of c g h k k' k t) (omega arith) (
          inr (
            inl (omega arith),
            inr (
              inr (omega (arith, ls, lr, lf)),
              inr (
                inr (omega (arith, ls, lr, lf)),
                inr (
                  inr (omega (arith, ls, lr, lf)),
                  inr (
                    inr (omega (arith, ls, lr, lf)),
                    inl (refl, g.length-sign k (h.blake3 (context c g h t)), refl),
                  ),
                ),
              ),
            ),
          ))

    read_receiver_sig : slice (trx_length + 64) 64 signed ≡ some (sig_of c g h k k' k' t)
    read_receiver_sig =
        let ls = g.length-key_bytes t.sender_addr in
        let lr = g.length-key_bytes t.receiver_addr in
        let lf = length-to_le_bytes 8 t.fee_value in
        read (trx_length + 64) 64 (sig_of c g h k k' k' t) (omega arith)
          (inl (refl, g.length-sign k' (h.blake3 (context c g h t)), refl))

    rest_receiver_sig : slice_rest (trx_length + 64) signed ≡ some (sig_of c g h k k' k' t)
    rest_receiver_sig =
        let fits = all-Fits c g h k k' t p (length buf) ld (omega arith) in
        let len = length-apply (all_writes c g h k k' t p) buf fits in
        slice_rest-eq_slice (trx_length + 64) 64 signed (omega (arith, len, full))
        ∙ read_receiver_sig

  abbrev pub read_back : HiddenTrx c g → HiddenTrx c g → HiddenTrx c g
  read_back t t0 = record t {
    tag = t0.tag;
    hash = h.blake3 (context c g h (record t { tag = t0.tag }));
    sender_sig = g.sign k (h.blake3 (context c g h t));
    receiver_sig = g.sign k' (h.blake3 (context c g h t));
  }

  unmarshal_signed :
      (t : HiddenTrx c g) (p : c.Proof) (buf : List ℕ) (t0 : HiddenTrx c g)
      → length t.delta_commit ≡ 32
      → t.sender_proof ≡ some p
      → length buf ≡ total_trx_proof
      → t.fee_value < 2 ^ 64
      → unmarshal c g h t0 (apply (all_writes c g h k k' t p) buf) ≡ some (read_back t t0, true)
  unfolding unmarshal compute_hash
  unmarshal_signed t p buf t0 ld e full f =
      let fee = from_le_bytes-to_le_bytes 8 t.fee_value (omega arith) in
      let is_64 : (length (sig_of c g h k k' k' t) == 64) ≡ true =
        (==_iff _ _).1 (g.length-sign k' (h.blake3 (context c g h t))) in
      rw (unmarshal, read_proof t p buf ld full)
        (rw (c.proof_from-proof_to p) (
          rw (read_shared, read_sender t p buf ld full)
            (rw (g.key_from-key_bytes t.sender_addr) (
              rw (read_delta t p buf ld full) (
                rw (read_fee t p buf ld full) (
                  rw (read_receiver t p buf ld full) (
                    rw (g.key_from-key_bytes t.receiver_addr) (
                      rw (read_sigs, read_sender_sig t p buf ld full)
                        (rw (rest_receiver_sig t p buf ld full)
                          (rw is_64 (rw (fee, e) refl)))))))))))

  -- Let the transaction hold a range proof and a delta of 32 bytes, the fee be a u64, and the buffer hold
  -- at most the 904 bytes of a transaction. Then signing does not panic, and what is read into any `t0`
  -- holds the proof, the addresses, the delta, the fee and the two signatures, and the hash of these
  -- under the tag of `t0`.
  pub sign_and_read_lem :
      (t : HiddenTrx c g) (p : c.Proof) (buf : List ℕ) (t0 : HiddenTrx c g)
      → length t.delta_commit ≡ 32
      → t.sender_proof ≡ some p
      → length buf ≤ total_trx_proof
      → t.fee_value < 2 ^ 64
      → sign_and_read c g h k k' t buf t0 ≡ some (read_back t t0, true)
  unfolding sign_and_read
  sign_and_read_lem t p buf t0 ld e small f =
      let full = length-grown c g h k k' buf small in
      rw (sign_and_read, sender_step c g h k k' t p buf ld e small)
        (rw (receiver_step c g h k k' t p (grown c g h buf) ld full)
          (unmarshal_signed t p (grown c g h buf) t0 ld e full f))

  -- If moreover the keys that sign are those of the two addresses, and the tags agree, both signatures
  -- of what was read verify.
  pub verify_hidden-sign_and_read :
      (t : HiddenTrx c g) (p : c.Proof) (buf : List ℕ) (t0 : HiddenTrx c g)
      → length t.delta_commit ≡ 32
      → t.sender_proof ≡ some p
      → length buf ≤ total_trx_proof
      → t.fee_value < 2 ^ 64
      → t0.tag ≡ t.tag
      → t.sender_addr ≡ g.verifying_key k
      → t.receiver_addr ≡ g.verifying_key k'
      → (t' : HiddenTrx c g) × (sign_and_read c g h k k' t buf t0 ≡ some (t', true))
        × (verify_sigs c g h t' ≡ (t', true))
  unfolding verify_sigs compute_hash context
  verify_hidden-sign_and_read t p buf t0 ld e small f et es er =
      let v1 = rw (← es) at (g.verify-sign k (h.blake3 (context c g h t))) in
      let v2 = rw (← er) at (g.verify-sign k' (h.blake3 (context c g h t))) in
      (
        read_back t t0,
        sign_and_read_lem t p buf t0 ld e small f,
        rw (verify_sigs, et) (rw v1 (rw v2 refl)),
      )
