-- ===== src/Trx/Regular/Codec/RoundTrip.antt =====
-- A transaction that both parties signed reads back from its bytes, and its signatures verify.
use bullet_ledger.Base.{
  ℕ, ◌+◌, ◌^◌, ◌<◌, ◌≤◌, ◌≡◌, refl, true, some, List, length, inl, inr, arith, ◌==◌, ==_iff, ◌∙◌,
}
use bullet_ledger.Base.Slices.{slice}
use bullet_ledger.Base.Writes.{
  Reads, apply, slice_rest, slice_rest-eq_slice, slice-apply, length-apply,
}
use bullet_ledger.Base.Words.{to_le_bytes, length-to_le_bytes, from_le_bytes-to_le_bytes}
use bullet_ledger.Crypto.{Signer, Hasher}
use bullet_ledger.Trx.Regular.{
  RegularTrx, trx_length, total_trx_length, context, compute_hash, grown, verify_sigs, read_sigs,
  unmarshal,
}
use bullet_ledger.Trx.Regular.Codec.{
  sign_and_read, sig_of, all_writes, all-Fits, length-grown, sender_step, receiver_step,
}

module _ (g : Signer) (h : Hasher) (k k' : g.SigningKey) where
  module _ (t : RegularTrx g) (buf : List ℕ) (full : length buf ≡ total_trx_length) where
    abbrev signed : List ℕ
    signed = apply (all_writes g h k k' t) buf

    read :
        (a n : ℕ) (out : List ℕ)
        → a + n ≤ total_trx_length
        → Reads a n out (all_writes g h k k' t)
        → slice a n signed ≡ some out
    read a n out le r =
        slice-apply a n out (all_writes g h k k' t) buf (omega arith)
          (all-Fits g h k k' t (length buf) (omega arith)) r

    read_sender : slice (0) 32 signed ≡ some (g.key_bytes t.sender_addr)
    read_sender =
        let ls = g.length-key_bytes t.sender_addr in
        let lr = g.length-key_bytes t.receiver_addr in
        let ld = length-to_le_bytes 8 t.delta_value in
        let lf = length-to_le_bytes 8 t.fee_value in
        read (0) 32 (g.key_bytes t.sender_addr) (omega arith) (
          inr (
            inl (omega arith),
            inr (
              inl (omega arith),
              inr (
                inl (omega arith),
                inr (inl (omega arith), inl (refl, g.length-key_bytes t.sender_addr, refl)),
              ),
            ),
          ))

    read_delta : slice (32) 8 signed ≡ some (to_le_bytes 8 t.delta_value)
    read_delta =
        let ls = g.length-key_bytes t.sender_addr in
        let lr = g.length-key_bytes t.receiver_addr in
        let ld = length-to_le_bytes 8 t.delta_value in
        let lf = length-to_le_bytes 8 t.fee_value in
        read (32) 8 (to_le_bytes 8 t.delta_value) (omega arith) (
          inr (
            inl (omega arith),
            inr (
              inl (omega arith),
              inr (inl (omega arith), inl (refl, length-to_le_bytes 8 t.delta_value, refl)),
            ),
          ))

    read_fee : slice (40) 8 signed ≡ some (to_le_bytes 8 t.fee_value)
    read_fee =
        let ls = g.length-key_bytes t.sender_addr in
        let lr = g.length-key_bytes t.receiver_addr in
        let ld = length-to_le_bytes 8 t.delta_value in
        let lf = length-to_le_bytes 8 t.fee_value in
        read (40) 8 (to_le_bytes 8 t.fee_value) (omega arith) (
          inr (
            inl (omega arith),
            inr (inl (omega arith), inl (refl, length-to_le_bytes 8 t.fee_value, refl)),
          ))

    read_receiver : slice (48) 32 signed ≡ some (g.key_bytes t.receiver_addr)
    read_receiver =
        let ls = g.length-key_bytes t.sender_addr in
        let lr = g.length-key_bytes t.receiver_addr in
        let ld = length-to_le_bytes 8 t.delta_value in
        let lf = length-to_le_bytes 8 t.fee_value in
        read (48) 32 (g.key_bytes t.receiver_addr) (omega arith)
          (inr (inl (omega arith), inl (refl, g.length-key_bytes t.receiver_addr, refl)))

    read_sender_sig : slice (trx_length) 64 signed ≡ some (sig_of g h k k' k t)
    read_sender_sig =
        let ls = g.length-key_bytes t.sender_addr in
        let lr = g.length-key_bytes t.receiver_addr in
        let ld = length-to_le_bytes 8 t.delta_value in
        let lf = length-to_le_bytes 8 t.fee_value in
        read (trx_length) 64 (sig_of g h k k' k t) (omega arith) (
          inr (
            inl (omega arith),
            inr (
              inr (omega (arith, ls, lr, ld, lf)),
              inr (
                inr (omega (arith, ls, lr, ld, lf)),
                inr (
                  inr (omega (arith, ls, lr, ld, lf)),
                  inr (
                    inr (omega (arith, ls, lr, ld, lf)),
                    inl (refl, g.length-sign k (h.blake3 (context g h t)), refl),
                  ),
                ),
              ),
            ),
          ))

    read_receiver_sig : slice (trx_length + 64) 64 signed ≡ some (sig_of g h k k' k' t)
    read_receiver_sig =
        let ls = g.length-key_bytes t.sender_addr in
        let lr = g.length-key_bytes t.receiver_addr in
        let ld = length-to_le_bytes 8 t.delta_value in
        let lf = length-to_le_bytes 8 t.fee_value in
        read (trx_length + 64) 64 (sig_of g h k k' k' t) (omega arith)
          (inl (refl, g.length-sign k' (h.blake3 (context g h t)), refl))

    rest_receiver_sig : slice_rest (trx_length + 64) signed ≡ some (sig_of g h k k' k' t)
    rest_receiver_sig =
        let len =
          length-apply (all_writes g h k k' t) buf
            (all-Fits g h k k' t (length buf) (omega arith)) in
        slice_rest-eq_slice (trx_length + 64) 64 signed (omega (arith, len, full))
        ∙ read_receiver_sig

  abbrev pub read_back : RegularTrx g → RegularTrx g → RegularTrx g
  read_back t t0 = record t {
    tag = t0.tag;
    hash = h.blake3 (context g h (record t { tag = t0.tag }));
    sender_sig = g.sign k (h.blake3 (context g h t));
    receiver_sig = g.sign k' (h.blake3 (context g h t));
  }

  unmarshal_signed :
      (t : RegularTrx g) (buf : List ℕ) (t0 : RegularTrx g)
      → length buf ≡ total_trx_length
      → t.delta_value < 2 ^ 64
      → t.fee_value < 2 ^ 64
      → unmarshal g h t0 (apply (all_writes g h k k' t) buf) ≡ some (read_back t t0, true)
  unfolding unmarshal compute_hash
  unmarshal_signed t buf t0 full d f =
      let delta = from_le_bytes-to_le_bytes 8 t.delta_value (omega arith) in
      let fee = from_le_bytes-to_le_bytes 8 t.fee_value (omega arith) in
      let is_64 : (length (sig_of g h k k' k' t) == 64) ≡ true =
        (==_iff _ _).1 (g.length-sign k' (h.blake3 (context g h t))) in
      rw (unmarshal, read_sender t buf full)
        (rw (g.key_from-key_bytes t.sender_addr) (
          rw (read_delta t buf full) (
            rw (read_fee t buf full) (
              rw (read_receiver t buf full) (
                rw (g.key_from-key_bytes t.receiver_addr) (
                  rw (read_sigs, read_sender_sig t buf full)
                    (rw (rest_receiver_sig t buf full) (rw is_64 (rw (delta, fee) refl)))))))))

  -- Let the delta and the fee be u64, and the buffer hold at most the 208 bytes of a transaction. Then
  -- signing does not panic, and what is read into any `t0` holds the addresses, the delta, the fee and
  -- the two signatures, and the hash of these under the tag of `t0`.
  pub sign_and_read_lem :
      (t : RegularTrx g) (buf : List ℕ) (t0 : RegularTrx g)
      → length buf ≤ total_trx_length
      → t.delta_value < 2 ^ 64
      → t.fee_value < 2 ^ 64
      → sign_and_read g h k k' t buf t0 ≡ some (read_back t t0, true)
  unfolding sign_and_read
  sign_and_read_lem t buf t0 small d f =
      let full = length-grown g h k k' buf small in
      rw (sign_and_read, sender_step g h k k' t buf small)
        (rw (receiver_step g h k k' t (grown g h buf) full)
          (unmarshal_signed t (grown g h buf) t0 full d f))

  -- If moreover the keys that sign are those of the two addresses, and the tags agree, both signatures
  -- of what was read verify.
  pub verify_regular-sign_and_read :
      (t : RegularTrx g) (buf : List ℕ) (t0 : RegularTrx g)
      → length buf ≤ total_trx_length
      → t.delta_value < 2 ^ 64
      → t.fee_value < 2 ^ 64
      → t0.tag ≡ t.tag
      → t.sender_addr ≡ g.verifying_key k
      → t.receiver_addr ≡ g.verifying_key k'
      → (t' : RegularTrx g) × (sign_and_read g h k k' t buf t0 ≡ some (t', true))
        × (verify_sigs g h t' ≡ (t', true))
  unfolding verify_sigs compute_hash context
  verify_regular-sign_and_read t buf t0 small d f et es er =
      let v1 = rw (← es) at (g.verify-sign k (h.blake3 (context g h t))) in
      let v2 = rw (← er) at (g.verify-sign k' (h.blake3 (context g h t))) in
      (
        read_back t t0,
        sign_and_read_lem t buf t0 small d f,
        rw (verify_sigs, et) (rw v1 (rw v2 refl)),
      )
