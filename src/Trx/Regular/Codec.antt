-- ===== src/Trx/Regular/Codec.antt =====
-- The bytes that marshalling and the two signatures write.
pub mod RoundTrip
use bullet_ledger.Base.{
  ℕ, ◌+◌, ◌^◌, ◌<◌, ◌≤◌, ◌≡◌, refl, Bool, true, ◌&&◌, Option, none, some, List, [], ◌∷◌, ◌>>=◌,
  length, inl, inr, arith, if◌then◌else◌, le→not-ltb, ◌∙◌,
}
use bullet_ledger.Base.Slices.{slice, length-resize}
use bullet_ledger.Base.Writes.{
  Write, Fits, Reads, apply, copy_exact-apply, copy_rest, copy_rest-eq_exact, slice_rest,
  slice_rest-eq_slice, slice-apply, length-apply,
}
use bullet_ledger.Base.Words.{
  to_le_bytes, from_le_bytes, length-to_le_bytes, from_le_bytes-to_le_bytes,
}
use bullet_ledger.Crypto.{Signer, Hasher}
use bullet_ledger.Trx.Regular.{
  RegularTrx, trx_length, total_trx_length, context, compute_hash, grown, put_shared, marshal,
  sender_sign, receiver_sign, verify_sigs, read_sigs, unmarshal,
}

module _ (g : Signer) (h : Hasher) (k k' : g.SigningKey) where
  -- Both parties sign, the sender first, and the bytes are read into `t0`.
  unfoldable pub sign_and_read : RegularTrx g → List ℕ → RegularTrx g → Option (RegularTrx g × Bool)
  sign_and_read t buf t0 = do
    (t1, b1) ← sender_sign g h k t buf
    (t2, b2) ← receiver_sign g h k' t1 b1
    unmarshal g h t0 b2

  abbrev shared_writes : RegularTrx g → List Write → List Write
  shared_writes t ws =
      (48, g.key_bytes t.receiver_addr)
      ∷ ((40, to_le_bytes 8 t.fee_value)
          ∷ ((32, to_le_bytes 8 t.delta_value) ∷ ((0, g.key_bytes t.sender_addr) ∷ ws)))

  abbrev sig_of : g.SigningKey → RegularTrx g → List ℕ
  sig_of key t = g.sign key (h.blake3 (context g h t))

  abbrev first_writes : RegularTrx g → List Write
  first_writes t = (trx_length, sig_of k t) ∷ shared_writes t []

  abbrev all_writes : RegularTrx g → List Write
  all_writes t = (trx_length + 64, sig_of k' t) ∷ shared_writes t (first_writes t)

  Fits-shared :
      (t : RegularTrx g) (ws : List Write) (size : ℕ)
      → trx_length ≤ size
      → Fits size ws
      → Fits size (shared_writes t ws)
  Fits-shared t ws size big f =
      let ls = g.length-key_bytes t.sender_addr in
      let lr = g.length-key_bytes t.receiver_addr in
      let ld = length-to_le_bytes 8 t.delta_value in
      let lf = length-to_le_bytes 8 t.fee_value in
      (omega (arith, lr), (omega (arith, lf), (omega (arith, ld), (omega (arith, ls), f))))

  put_shared-apply :
      (t : RegularTrx g) (ws : List Write) (buf : List ℕ)
      → trx_length ≤ length buf
      → Fits (length buf) ws
      → put_shared g h t (apply ws buf) ≡ some (apply (shared_writes t ws) buf)
  unfolding put_shared
  put_shared-apply t ws buf big f =
      let ls = g.length-key_bytes t.sender_addr in
      let lr = g.length-key_bytes t.receiver_addr in
      let ld = length-to_le_bytes 8 t.delta_value in
      let lf = length-to_le_bytes 8 t.fee_value in
      let w1 : List Write = (0, g.key_bytes t.sender_addr) ∷ ws in
      let w2 : List Write = (32, to_le_bytes 8 t.delta_value) ∷ w1 in
      let w3 : List Write = (40, to_le_bytes 8 t.fee_value) ∷ w2 in
      let f1 : Fits (length buf) w1 = (omega (arith, ls), f) in
      let f2 : Fits (length buf) w2 = (omega (arith, ld), f1) in
      let f3 : Fits (length buf) w3 = (omega (arith, lf), f2) in
      rw (put_shared, copy_exact-apply 0 32 (g.key_bytes t.sender_addr) ws buf ls (omega arith) f)
        (rw (copy_exact-apply 32 8 (to_le_bytes 8 t.delta_value) w1 buf ld (omega arith) f1) (
          rw (copy_exact-apply 40 8 (to_le_bytes 8 t.fee_value) w2 buf lf (omega arith) f2)
            (copy_exact-apply 48 32 (g.key_bytes t.receiver_addr) w3 buf lr (omega arith) f3)))

  first-Fits : (t : RegularTrx g) (size : ℕ) → total_trx_length ≤ size → Fits size (first_writes t)
  first-Fits t size big = (
    omega (arith, g.length-sign k (h.blake3 (context g h t))),
    Fits-shared t [] size (omega arith) tt,
  )

  all-Fits : (t : RegularTrx g) (size : ℕ) → total_trx_length ≤ size → Fits size (all_writes t)
  all-Fits t size big = (
    omega (arith, g.length-sign k' (h.blake3 (context g h t))),
    Fits-shared t (first_writes t) size (omega arith) (first-Fits t size big),
  )

  length-grown :
      (buf : List ℕ) → length buf ≤ total_trx_length → length (grown g h buf) ≡ total_trx_length
  unfolding grown
  length-grown buf small = ground (arith, length-resize total_trx_length 0 buf)

  grown_of_full : (buf : List ℕ) → length buf ≡ total_trx_length → grown g h buf ≡ buf
  unfolding grown
  grown_of_full buf full = rw (le→not-ltb (length buf) total_trx_length (omega arith))

  abbrev after_sender : RegularTrx g → RegularTrx g
  after_sender t = record t { hash = h.blake3 (context g h t); sender_sig = sig_of k t }

  put_grown :
      (t : RegularTrx g) (buf : List ℕ)
      → length (grown g h buf) ≡ total_trx_length
      → put_shared g h t (grown g h buf) ≡ some (apply (shared_writes t []) (grown g h buf))
  put_grown t buf full =
      unfold apply in put_shared-apply t [] (grown g h buf) (omega (arith, full)) tt

  sender_step :
      (t : RegularTrx g) (buf : List ℕ)
      → length buf ≤ total_trx_length
      → sender_sign g h k t buf ≡ some (after_sender t, apply (first_writes t) (grown g h buf))
  unfolding sender_sign marshal compute_hash
  sender_step t buf small =
      let full = length-grown buf small in
      rw (sender_sign, put_grown t buf full)
        (rw
          (copy_exact-apply trx_length 64 (sig_of k t) (shared_writes t []) (grown g h buf)
            (g.length-sign k (h.blake3 (context g h t))) (omega (arith, full))
            (Fits-shared t [] (length (grown g h buf)) (omega (arith, full)) tt))
          refl)

  receiver_step :
      (t : RegularTrx g) (buf : List ℕ)
      → length buf ≡ total_trx_length
      → receiver_sign g h k' (after_sender t) (apply (first_writes t) buf)
        ≡ some (record (after_sender t) { receiver_sig = sig_of k' t }, apply (all_writes t) buf)
  unfolding receiver_sign marshal compute_hash
  receiver_step t buf full =
      let f1 = first-Fits t (length buf) (omega arith) in
      let l1 : length (apply (first_writes t) buf) ≡ total_trx_length =
        length-apply (first_writes t) buf f1 ∙ full in
      let fs = Fits-shared t (first_writes t) (length buf) (omega arith) f1 in
      let l2 : length (apply (shared_writes t (first_writes t)) buf) ≡ trx_length + 64 + 64 =
        omega (arith, length-apply (shared_writes t (first_writes t)) buf fs) in
      rw (receiver_sign, grown_of_full (apply (first_writes t) buf) l1)
        (rw (put_shared-apply (after_sender t) (first_writes t) buf (omega arith) f1) (
          rw (copy_rest-eq_exact (trx_length + 64) 64 (sig_of k' t) _ l2) (
            rw
              (copy_exact-apply (trx_length + 64) 64 (sig_of k' t)
                (shared_writes t (first_writes t)) buf (g.length-sign k' (h.blake3 (context g h t)))
                (omega arith) fs)
              refl)))
